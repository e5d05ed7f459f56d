-- ===== src/Flags/Grammar.antt =====
-- The argument lists that `parseFlags` of src/cli/flags.ts accepts.
use stellar_debugger.Prelude.{
  ◌≡◌, refl, ap, ◌∙◌, ◌↔◌, String, Bool, true, false, List, [], ◌∷◌, arith, if◌then◌else◌,
}
use stellar_debugger.Prelude.Dict.{Dict, insert}
use stellar_debugger.Flags.{
  FlagSpec, FlagResult, parsed, missing_value, unknown_option, unexpected_argument, add_text,
  is_option, TokenKind, value_flag, switch_flag, unknown, argument, token_kind, flags_loop,
  parse_flags,
}

-- An option with its value, or a switch.
pub data Flag : Type 0 where
  option : String → String → Flag
  switch : String → Flag

abbrev pub render : List Flag → List String
render [] = []
render (option key value ∷ flags) = key ∷ value ∷ render flags
render (switch name ∷ flags) = name ∷ render flags

-- Declared, and no value looks like an option.
abbrev pub AreDeclared : FlagSpec → List Flag → Type 0
AreDeclared spec [] = Unit {0}
AreDeclared spec (option key value ∷ flags) =
    (token_kind spec key ≡ value_flag) × (is_option value ≡ false) × AreDeclared spec flags
AreDeclared spec (switch name ∷ flags) =
    (token_kind spec name ≡ switch_flag) × AreDeclared spec flags

-- The values set in order, so the last one stands, and the switches.
abbrev pub values_of : List Flag → Dict String → Dict String
values_of [] values = values
values_of (option key value ∷ flags) values = values_of flags (insert key value values)
values_of (switch name ∷ flags) values = values_of flags values

abbrev pub switches_of : List Flag → List String → List String
switches_of [] switches = switches
switches_of (option key value ∷ flags) switches = switches_of flags switches
switches_of (switch name ∷ flags) switches = switches_of flags (add_text switches name)

module _ (spec : FlagSpec) where
  switch_step :
      (name : String) (rest : List String) (values : Dict String) (switches : List String)
      → token_kind spec name ≡ switch_flag
      → flags_loop spec (name ∷ rest) values switches
        ≡ flags_loop spec rest values (add_text switches name)
  unfolding flags_loop
  switch_step name [] values switches h = ground (arith, h)
  switch_step name (next ∷ rest) values switches h = ground (arith, h)

  option_step :
      (key value : String) (rest : List String) (values : Dict String) (switches : List String)
      → token_kind spec key ≡ value_flag
      → is_option value ≡ false
      → flags_loop spec (key ∷ value ∷ rest) values switches
        ≡ flags_loop spec rest (insert key value values) switches
  unfolding flags_loop
  option_step key value rest values switches h k = ground (arith, h, k)

  flags_loop-render :
      (flags : List Flag) (values : Dict String) (switches : List String)
      → AreDeclared spec flags
      → flags_loop spec (render flags) values switches
        ≡ parsed (values_of flags values) (switches_of flags switches)
  flags_loop-render [] values switches h = unfold flags_loop in refl
  flags_loop-render (option key value ∷ flags) values switches h =
      option_step key value (render flags) values switches h.0 h.1
      ∙ flags_loop-render flags (insert key value values) switches h.2
  flags_loop-render (switch name ∷ flags) values switches h =
      switch_step name (render flags) values switches h.0
      ∙ flags_loop-render flags values (add_text switches name) h.1

  -- The result is that of these flags.
  abbrev IsResult : List String → Dict String → List String → FlagResult → List Flag → Type 0
  IsResult argv values switches result flags =
      (argv ≡ render flags)
      × AreDeclared spec flags
      × (result ≡ parsed (values_of flags values) (switches_of flags switches))

  abbrev Accepted : List String → Dict String → List String → FlagResult → Type 0
  Accepted argv values switches result =
      (v : Dict String) (s : List String)
      → result ≡ parsed v s
      → (flags : List Flag) × IsResult argv values switches result flags

  with_switch :
      (name : String) (rest : List String) (values : Dict String) (switches : List String)
      (result : FlagResult)
      → token_kind spec name ≡ switch_flag
      → Accepted rest values (add_text switches name) result
      → Accepted (name ∷ rest) values switches result
  with_switch name rest values switches result h k v s e =
      let (flags, r) = k v s e in (switch name ∷ flags, (ap (λ l. name ∷ l) r.0, (h, r.1), r.2))

  with_option :
      (key value : String) (rest : List String) (values : Dict String) (switches : List String)
      (result : FlagResult)
      → token_kind spec key ≡ value_flag
      → is_option value ≡ false
      → Accepted rest (insert key value values) switches result
      → Accepted (key ∷ value ∷ rest) values switches result
  with_option key value rest values switches result h q k v s e =
      let (flags, r) = k v s e in
      (option key value ∷ flags, (ap (λ l. key ∷ value ∷ l) r.0, (h, q, r.1), r.2))

  flags_loop-Accepted :
      (argv : List String) (values : Dict String) (switches : List String)
      → Accepted argv values switches (flags_loop spec argv values switches)
  unfolding flags_loop
  flags_loop-Accepted [] values switches = λ v s e. ([], (refl, tt, refl))
  flags_loop-Accepted (token ∷ []) values switches = go (token_kind spec token) refl
    where
      go :
          (k : TokenKind)
          → token_kind spec token ≡ k
          → Accepted (token ∷ []) values switches (elim k [
            | value_flag ↦ missing_value token
            | switch_flag ↦ parsed values (add_text switches token)
            | unknown ↦ unknown_option token
            | argument ↦ unexpected_argument token
          ])
      go value_flag h v s e = cc
      go switch_flag h v s e = (switch token ∷ [], (refl, (h, tt), refl))
      go unknown h v s e = cc
      go argument h v s e = cc
  flags_loop-Accepted (token ∷ next ∷ rest) values switches =
      go (token_kind spec token) refl (is_option next) refl
        (flags_loop-Accepted rest (insert token next values) switches)
        (flags_loop-Accepted (next ∷ rest) values (add_text switches token))
    where
      go :
          (k : TokenKind)
          → token_kind spec token ≡ k
          → (b : Bool) → is_option next ≡ b
          → Accepted rest
              (insert token next values)
              switches
              (flags_loop spec rest (insert token next values) switches)
          → Accepted
              (next ∷ rest)
              values
              (add_text switches token)
              (flags_loop spec (next ∷ rest) values (add_text switches token))
          → Accepted (token ∷ next ∷ rest) values switches (elim k [
            | value_flag ↦
                if b
                then missing_value token
                else flags_loop spec rest (insert token next values) switches
            | switch_flag ↦ flags_loop spec (next ∷ rest) values (add_text switches token)
            | unknown ↦ unknown_option token
            | argument ↦ unexpected_argument token
          ])
      go value_flag h true q one two = λ v s e. cc
      go value_flag h false q one two = with_option token next rest values switches _ h q one
      go switch_flag h b q one two = with_switch token (next ∷ rest) values switches _ h two
      go unknown h b q one two = λ v s e. cc
      go argument h b q one two = λ v s e. cc

-- An argument list is accepted exactly when it consists of declared switches and of declared
-- options with a value that does not look like an option, and the result holds the values that
-- these set in order, and the switches.
pub parse_flags_iff :
    (argv : List String) (spec : FlagSpec) (values : Dict String) (switches : List String)
    → (parse_flags argv spec ≡ parsed values switches) ↔ (
        (flags : List Flag) × (argv ≡ render flags)
        × AreDeclared spec flags
        × (values ≡ values_of flags [])
        × (switches ≡ switches_of flags []))
unfolding parse_flags
parse_flags_iff argv spec values switches = (to, from)
  where
    to :
        flags_loop spec argv [] [] ≡ parsed values switches
        → (flags : List Flag) × (argv ≡ render flags)
          × AreDeclared spec flags
          × (values ≡ values_of flags [])
          × (switches ≡ switches_of flags [])
    to e =
        let (flags, r) = flags_loop-Accepted spec argv [] [] values switches e in
        (flags, r.0, r.1, cc (e, r.2), cc (e, r.2))

    from :
        ((flags : List Flag) × (argv ≡ render flags)
          × AreDeclared spec flags
          × (values ≡ values_of flags [])
          × (switches ≡ switches_of flags []))
        → flags_loop spec argv [] [] ≡ parsed values switches
    from (flags, a, d, v, s) =
        ap (λ l. flags_loop spec l [] []) a ∙ flags_loop-render spec flags [] [] d ∙ cc (v, s)
