-- ===== src/Preview/Resolved.antt =====
-- What `resolve` of src/host/preview/knob.rs promises of the hosts that it gives.
use komizo.Prelude.{
  String, ◌≡◌, refl, sym, Bool, true, false, not, ◌&&◌, [], arith, leb, if◌then◌else◌, leb→le,
  and-eq-true, length, is_empty, all, Text, codes, split, has_byte,
}
use komizo.Prelude.Int.{ℤ, pos, negsuc, ◌≤ℤ◌}
use komizo.Prelude.Result.{ok, ensure, OfOk, >>=-OfOk, OfOk-ok}
use mathlib.Core.Path.{subst}
use komizo.Preview.App.{valid_app, validate_args}
use komizo.Preview.Knob.{Knob}
use komizo.Preview.Hosts.{
  path_domain_for, domain_for, host_for, api_host_for, valid_label, last_label, alphabetic_tld,
  validate_hosts, Target, target_of, resolve,
}
use komizo.Preview.Label.{IsHostname, IsHostname-front}
use komizo.Preview.Form.{IsSplit, NoHyphen, has_byte-append, host_for-IsSplit}

validate_args-ok :
    (quote : Text → Text) (app : Text) (pr : ℤ)
    → validate_args quote app pr ≡ ok tt
    → (valid_app app ≡ true) × (pos 1 ≤ℤ pr)
unfolding validate_args
validate_args-ok quote app pr h = (ground arith, ground arith)

ensure-OfOk {ℓ} :
    {P : Type ℓ} (b : Bool) (text : String)
    → (b ≡ true → P)
    → OfOk (λ (done : Unit {0}). P) (ensure b text)
ensure-OfOk true text h = h refl
ensure-OfOk false text h = tt

ensure-true : (b : Bool) (text : String) {done : Unit {0}} → ensure b text ≡ ok done → b ≡ true
ensure-true true text e = refl
ensure-true false text e = absurd (cc)

pub validate_hosts-OfOk :
    (k : Knob) (app : Text) (pr : ℤ)
    → OfOk (λ done. IsHostname (api_host_for k app pr)) (validate_hosts k app pr)
unfolding validate_hosts
validate_hosts-OfOk k app pr =
    let host = api_host_for k app pr in
    let labels = split b'.' host in
    >>=-OfOk (λ done. IsHostname host)
      (ensure (not (is_empty (domain_for k app)))
        "preview requires an explicitly configured domain")
      _
      λ d some_domain.
        >>=-OfOk (λ done. IsHostname host)
          (ensure (leb (length host) 253 && has_byte b'.' (domain_for k app))
            "preview domain does not produce a valid preview hostname")
          _
          λ s short.
            >>=-OfOk (λ done. IsHostname host)
              (ensure (alphabetic_tld (last_label labels))
                "preview domain must have an alphabetic top-level domain")
              _
              λ t tld.
                ensure-OfOk (all valid_label labels)
                  "preview domain or app name does not produce valid DNS labels"
                  λ good. (
                    leb→le _ _ (and-eq-true _ _ (ensure-true _ _ short)).0,
                    good,
                    ensure-true _ _ tld,
                  )

-- What is promised.
abbrev pub IsResolved : Knob → (app : Text) → (pr : ℤ) → (has_api : Bool) → Target → Type 0
IsResolved k app pr has_api target =
    (valid_app app ≡ true)
    × (pos 1 ≤ℤ pr)
    × IsHostname target.host
    × (has_api ≡ true → IsHostname target.api_host)

split-IsHostname :
    (k : Knob) (app : Text) (pr : ℤ)
    → IsSplit k app pr
    → IsHostname (api_host_for k app pr)
    → IsHostname (host_for k app pr)
split-IsHostname k app pr s h = subst IsHostname (sym s.host) (
    IsHostname-front s.label (codes "-api") s.domain s.no_dot
      (has_byte-append b'.' s.label (codes "-api") s.no_dot (unfold has_byte in refl)) s.well
      (subst IsHostname s.api_host h))

host_for-IsHostname :
    (k : Knob) (app : Text) (pr : ℤ)
    → valid_app app ≡ true
    → pos 1 ≤ℤ pr
    → (is_empty (path_domain_for k app) ≡ false → NoHyphen app)
    → IsHostname (api_host_for k app pr)
    → IsHostname (host_for k app pr)
host_for-IsHostname k app (pos n) v p h good =
    split-IsHostname k app (pos n) (host_for-IsSplit k app n v h) good
host_for-IsHostname k app (negsuc n) v p h good = absurd (omega arith)

pub resolve-target :
    (quote : Text → Text) (k : Knob) (app : Text) (pr : ℤ) (has_api : Bool) (target : Target)
    → resolve quote k app pr has_api ≡ ok target
    → target.host ≡ host_for k app pr
unfolding resolve target_of
resolve-target quote k app pr has_api target e =
    OfOk-ok (λ t. t.host ≡ host_for k app pr) (resolve quote k app pr has_api)
      (>>=-OfOk (λ t. t.host ≡ host_for k app pr) (validate_args quote app pr) _
        λ done a.
          >>=-OfOk (λ t. t.host ≡ host_for k app pr) (validate_hosts k app pr) _ λ done' v. refl)
      e

-- A preview is resolved only for an app's name and a number that are valid, and both the host that it
-- gives and the host of its API, when it has one, are host names: at most 253 bytes of labels, each of
-- 1 to 63 lowercase letters, digits and hyphens that starts and ends with a letter or a digit, with
-- letters alone in the last one. The name of an app that has a path domain must not end in a
-- hyphen for this.
pub resolve_ok :
    (quote : Text → Text) (k : Knob) (app : Text) (pr : ℤ) (has_api : Bool) (target : Target)
    → resolve quote k app pr has_api ≡ ok target
    → (is_empty (path_domain_for k app) ≡ false → NoHyphen app)
    → IsResolved k app pr has_api target
unfolding resolve target_of
resolve_ok quote k app pr has_api target e h =
    OfOk-ok (IsResolved k app pr has_api) (resolve quote k app pr has_api)
      (>>=-OfOk (IsResolved k app pr has_api) (validate_args quote app pr) _ λ done a.
        >>=-OfOk (IsResolved k app pr has_api) (validate_hosts k app pr) _ λ done' v.
          let (valid, positive) = validate_args-ok quote app pr a in
          let good = OfOk-ok _ (validate_hosts k app pr) (validate_hosts-OfOk k app pr) v in
          (
            valid,
            positive,
            host_for-IsHostname k app pr valid positive h good,
            λ api. subst (λ b. IsHostname (if b then api_host_for k app pr else [])) (sym api) good,
          ))
      e
