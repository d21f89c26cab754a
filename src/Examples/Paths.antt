-- ===== src/Examples/Paths.antt =====
-- The path theorems at concrete paths.
use komizo.Prelude.{◌≡◌, refl, true, false, codes, text_eq, All}
use komizo.CleanPath.{clean_path, is_absolute, components, dot_dot}
use komizo.CleanPath.Idempotent.{clean_path_idem, clean_path_absolute}

clean_path_idem_example : clean_path (clean_path (codes "/a/../b")) ≡ clean_path (codes "/a/../b")
clean_path_idem_example = clean_path_idem (codes "/a/../b")

clean_path_absolute_example :
    (is_absolute (clean_path (codes "/../b")) ≡ true)
    × All (λ p. text_eq p dot_dot ≡ false) (components (clean_path (codes "/../b")))
unfolding is_absolute
clean_path_absolute_example = clean_path_absolute (codes "/../b") refl
