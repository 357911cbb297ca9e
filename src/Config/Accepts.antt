-- ===== src/Config/Accepts.antt =====
-- What Parse accepts.
use pici.Base.{
  ℕ, ◌+◌, String, ◌≡◌, refl, ap, ◌∙◌, ◌≢◌, ◌↔◌, Bool, true, false, not, ◌&&◌, Option, none, some,
  List, [], ◌∷◌, arith, str_eq, any, all, Text, is_negative,
}
use pici.Config.{Step, Config}
use pici.Config.Parse.{
  Fields, Parsed, ok, err, ◌>>=◌, has_field, removed_root_keys, check_root, check_steps,
  check_config, parse,
}
use mathlib.Core.Path.{subst}

-- What Parse asks of a step.
abbrev pub is_valid_step : Step → Bool
is_valid_step s =
    not (str_eq s.name "")
    && not (str_eq s.script "" && str_eq s.run "")
    && not (is_negative s.retry)

abbrev pub uses_removed_key : List String → Option Fields → Bool
uses_removed_key keys none = false
uses_removed_key keys (some root) = any (λ k. has_field root k) keys

check_root_cases :
    (keys : List String) (root : Option Fields)
    → (check_root keys root ≡ ok tt) ↔ (uses_removed_key keys root ≡ false)
unfolding check_root
check_root_cases keys none = (λ e. refl, λ e. refl)
check_root_cases [] (some root) = (λ e. refl, λ e. refl)
check_root_cases (k ∷ keys) (some root) =
    let ih = check_root_cases keys (some root) in
    (λ e. ground (arith, ih.0), λ e. ground (arith, ih.1))

check_steps_cases :
    (i : ℕ) (steps : List Step) → (check_steps i steps ≡ ok tt) ↔ (all is_valid_step steps ≡ true)
unfolding check_steps
check_steps_cases i [] = (λ e. refl, λ e. refl)
check_steps_cases i (s ∷ steps) =
    let ih = check_steps_cases (i + 1) steps in
    (λ e. ground (arith, ih.0), λ e. ground (arith, ih.1))

-- Two decoding steps end well only if each does.
pub >>=-eq-ok :
    {A B : Type 0} (first : Parsed A) (next : A → Parsed B) {out : B}
    → (first >>= next) ≡ ok out
    → (mid : A) × (first ≡ ok mid) × (next mid ≡ ok out)
>>=-eq-ok (err reason) next failed = cc
>>=-eq-ok (ok mid) next done = (mid, refl, done)

-- A configuration that Parse accepts.
abbrev pub IsAccepted : Option Fields → Parsed Config → Config → Type 0
IsAccepted root decoded cfg =
    (uses_removed_key removed_root_keys root ≡ false)
    × (decoded ≡ ok cfg)
    × (cfg.steps ≢ [])
    × (all is_valid_step cfg.steps ≡ true)

check_config_cases :
    (cfg out : Config)
    → (check_config cfg ≡ ok out)
      ↔ ((cfg ≡ out) × (cfg.steps ≢ []) × (all is_valid_step cfg.steps ≡ true))
unfolding check_config
check_config_cases cfg out = go cfg.steps refl
  where
    go :
        (steps : List Step)
        → cfg.steps ≡ steps
        → (check_config cfg ≡ ok out)
          ↔ ((cfg ≡ out) × (cfg.steps ≢ []) × (all is_valid_step cfg.steps ≡ true))
    go [] e = (λ h. cc (rw (e, check_config) at h), λ h. absurd (h.1 e))
    go (s ∷ steps) e =
        let valid = check_steps_cases 0 (s ∷ steps) in
        (
          λ h.
              let (t, found, same) =
                >>=-eq-ok (check_steps 0 (s ∷ steps)) _ (rw (e, check_config) at h) in
              (cc same, λ none_left. cc (e, none_left), rw e (valid.0 found)),
          λ h. rw (e, check_config) (rw (valid.1 (rw e at h.2)) (ap ok h.0)),
        )

module _ (unmarshal_root : Text → Option Fields) (unmarshal_config : Text → Parsed Config) where
  -- Parse accepts a file exactly if none of the removed keys stands at its top level, it decodes to
  -- a configuration with at least one step, and each step has a name, a script or a command, and
  -- no negative number of retries. The result is what was decoded.
  pub parse-eq-ok :
      (content : Text) (cfg : Config)
      → (parse unmarshal_root unmarshal_config content ≡ ok cfg)
        ↔ IsAccepted (unmarshal_root content) (unmarshal_config content) cfg
  unfolding parse
  parse-eq-ok content cfg = (
    λ h.
        let (t, root_ok, rest) =
          >>=-eq-ok (check_root removed_root_keys (unmarshal_root content)) _ h in
        let (c, decoded, checked) = >>=-eq-ok (unmarshal_config content) _ rest in
        let (same, some_step, valid) = (check_config_cases c cfg).0 checked in
        (
          (check_root_cases removed_root_keys (unmarshal_root content)).0 root_ok,
          decoded ∙ ap ok same,
          (λ e. some_step (ap (λ (d : Config). d.steps) same ∙ e)),
          subst (λ (d : Config). all is_valid_step d.steps ≡ true) same valid,
        ),
    λ h.
        rw ((check_root_cases removed_root_keys (unmarshal_root content)).1 h.0, h.1)
          ((check_config_cases cfg cfg).1 (refl, h.2, h.3)),
  )
