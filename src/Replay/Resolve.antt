-- ===== src/Replay/Resolve.antt =====
-- `resolveBreakpoints` of replayCursor.ts.
use stellar_debugger.Prelude.{
  ℕ, ◌≡◌, refl, sym, ◌⊎◌, ◌↔◌, String, Bool, true, false, Option, none, some, List, [], ◌∷◌, ◌++◌,
  inl, inr, ◌==◌, ==→eq, arith, Bool-cases, if◌then◌else◌,
}
use stellar_debugger.Prelude.Sets.{has, has-snoc, has-snoc_self, has-snoc_cases}
use stellar_debugger.StopModel.{StopModel, IndexMap, indices_of}
use stellar_debugger.Replay.{add_all, add_lines, add_files, add_addresses, resolve_breakpoints}
use mathlib.Core.Path.{subst}

-- A source breakpoint of these lines resolves to `i`, and `i` starts a raw line run.
abbrev pub FromLines : (ℕ → List ℕ) → List ℕ → List ℕ → ℕ → Type 0
FromLines resolve raw [] i = ⊥
FromLines resolve raw (line ∷ lines) i =
    ((has (resolve line) i ≡ true) × (has raw i ≡ true)) ⊎ FromLines resolve raw lines i

abbrev pub FromFiles : (String → ℕ → List ℕ) → List ℕ → List (String × List ℕ) → ℕ → Type 0
FromFiles resolve raw [] i = ⊥
FromFiles resolve raw ((file, lines) ∷ files) i =
    FromLines (resolve file) raw lines i ⊎ FromFiles resolve raw files i

-- The record `i` stands at one of the addresses.
abbrev pub FromAddresses : IndexMap → List ℕ → ℕ → Type 0
FromAddresses m [] i = ⊥
FromAddresses m (address ∷ addresses) i =
    (has (indices_of m address) i ≡ true) ⊎ FromAddresses m addresses i

abbrev pub FromSource : Option (String → ℕ → List ℕ) → List ℕ → List (String × List ℕ) → ℕ → Type 0
FromSource none raw files i = ⊥
FromSource (some resolve) raw files i = FromFiles resolve raw files i

add_all-has :
    (test : ℕ → Bool) (more set : List ℕ) (i : ℕ)
    → (has set i ≡ true) ⊎ ((has more i ≡ true) × (test i ≡ true))
    → has (add_all test more set) i ≡ true
unfolding add_all
add_all-has test [] set i (inl h) = h
add_all-has test [] set i (inr (h, t)) = cc
add_all-has test (x ∷ more) set i (inl h) = add_all-has test more _ i (inl (kept (test x)))
  where
    kept : (b : Bool) → has (if b then set ++ x ∷ [] else set) i ≡ true
    kept true = has-snoc set i x h
    kept false = h
add_all-has test (x ∷ more) set i (inr (h, t)) = elim (Bool-cases (x == i)) [
  | inl e ↦
      add_all-has test more _ i
        (inl (pushed (test x) (subst (λ k. test k ≡ true) (sym (==→eq x i e)) t) (==→eq x i e)))
  | inr e ↦ add_all-has test more _ i (inr (ground (arith, e, h), t))
]
  where
    pushed : (b : Bool) → b ≡ true → x ≡ i → has (if b then set ++ x ∷ [] else set) i ≡ true
    pushed true p q = subst (λ k. has (set ++ x ∷ []) k ≡ true) q (has-snoc_self set x)
    pushed false p q = cc

add_all-has_inv :
    (test : ℕ → Bool) (more set : List ℕ) (i : ℕ)
    → has (add_all test more set) i ≡ true
    → (has set i ≡ true) ⊎ ((has more i ≡ true) × (test i ≡ true))
unfolding add_all
add_all-has_inv test [] set i h = inl h
add_all-has_inv test (x ∷ more) set i h = elim (add_all-has_inv test more _ i h) [
  | inl m ↦ old (test x) refl m
  | inr (m, t) ↦ inr (ground (arith, m), t)
]
  where
    old :
        (b : Bool)
        → test x ≡ b
        → has (if b then set ++ x ∷ [] else set) i ≡ true
        → (has set i ≡ true) ⊎ ((has (x ∷ more) i ≡ true) × (test i ≡ true))
    old false e m = inl m
    old true e m = elim (has-snoc_cases set i x m) [
      | inl m' ↦ inl m'
      | inr q ↦ inr (ground (arith, q), subst (λ k. test k ≡ true) (sym q) e)
    ]

module _ (resolve : ℕ → List ℕ) (raw : List ℕ) (i : ℕ) where
  add_lines_iff :
      (lines set : List ℕ)
      → (has (add_lines resolve raw lines set) i ≡ true)
        ↔ ((has set i ≡ true) ⊎ FromLines resolve raw lines i)
  unfolding add_lines
  add_lines_iff [] set = ((λ h. inl h), λ s. elim s [ inl h ↦ h | inr e ↦ absurd e ])
  add_lines_iff (line ∷ lines) set =
      let ih = add_lines_iff lines (add_all (has raw) (resolve line) set) in
      (
        λ h. elim (ih.0 h) [
          | inr l ↦ inr (inr l)
          | inl m ↦ elim (add_all-has_inv (has raw) (resolve line) set i m) [
            | inl o ↦ inl o
            | inr both ↦ inr (inl both)
          ]
        ],
        λ s. elim s [
          | inl o ↦ ih.1 (inl (add_all-has (has raw) (resolve line) set i (inl o)))
          | inr (inl both) ↦ ih.1 (inl (add_all-has (has raw) (resolve line) set i (inr both)))
          | inr (inr l) ↦ ih.1 (inr l)
        ],
      )

module _ (resolve : String → ℕ → List ℕ) (raw : List ℕ) (i : ℕ) where
  add_files_iff :
      (files : List (String × List ℕ)) (set : List ℕ)
      → (has (add_files resolve raw files set) i ≡ true)
        ↔ ((has set i ≡ true) ⊎ FromFiles resolve raw files i)
  unfolding add_files
  add_files_iff [] set = ((λ h. inl h), λ s. elim s [ inl h ↦ h | inr e ↦ absurd e ])
  add_files_iff ((file, lines) ∷ files) set =
      let ih = add_files_iff files (add_lines (resolve file) raw lines set) in
      let here = add_lines_iff (resolve file) raw i lines set in
      (
        λ h. elim (ih.0 h) [
          | inr l ↦ inr (inr l)
          | inl m ↦ elim (here.0 m) [ inl o ↦ inl o | inr l ↦ inr (inl l) ]
        ],
        λ s. elim s [
          | inl o ↦ ih.1 (inl (here.1 (inl o)))
          | inr (inl l) ↦ ih.1 (inl (here.1 (inr l)))
          | inr (inr l) ↦ ih.1 (inr l)
        ],
      )

module _ (m : IndexMap) (i : ℕ) where
  add_addresses_iff :
      (addresses set : List ℕ)
      → (has (add_addresses m addresses set) i ≡ true)
        ↔ ((has set i ≡ true) ⊎ FromAddresses m addresses i)
  unfolding add_addresses
  add_addresses_iff [] set = ((λ h. inl h), λ s. elim s [ inl h ↦ h | inr e ↦ absurd e ])
  add_addresses_iff (a ∷ addresses) set =
      let ih = add_addresses_iff addresses (add_all (λ _. true) (indices_of m a) set) in
      (
        λ h. elim (ih.0 h) [
          | inr l ↦ inr (inr l)
          | inl x ↦ elim (add_all-has_inv (λ _. true) (indices_of m a) set i x) [
            | inl o ↦ inl o
            | inr both ↦ inr (inl (both.0))
          ]
        ],
        λ s. elim s [
          | inl o ↦ ih.1 (inl (add_all-has (λ _. true) (indices_of m a) set i (inl o)))
          | inr (inl l) ↦
              ih.1 (inl (add_all-has (λ _. true) (indices_of m a) set i (inr (l, refl))))
          | inr (inr l) ↦ ih.1 (inr l)
        ],
      )

source_part :
    (source : Option (String → ℕ → List ℕ)) (raw : List ℕ) (files : List (String × List ℕ)) (i : ℕ)
    → (has (elim source [ none ↦ [] | some resolve ↦ add_files resolve raw files [] ]) i ≡ true)
      ↔ FromSource source raw files i
source_part none raw files i = ((λ h. cc), λ h. absurd h)
source_part (some resolve) raw files i =
    let iff = add_files_iff resolve raw i files [] in
    ((λ h. elim (iff.0 h) [ inl e ↦ cc | inr f ↦ f ]), λ f. iff.1 (inr f))

-- A record is a breakpoint index exactly when it starts a raw line run and one of the client's
-- source breakpoints resolves to it, or when it stands at one of the instruction addresses.
pub resolve_breakpoints_iff :
    (stops : StopModel) (source : Option (String → ℕ → List ℕ)) (files : List (String × List ℕ))
    (addresses : List ℕ) (i : ℕ)
    → (has (resolve_breakpoints stops source files addresses) i ≡ true) ↔ (
        FromSource source stops.raw_run_starts files i
        ⊎ FromAddresses stops.validated_pos_to_indices addresses i)
unfolding resolve_breakpoints
resolve_breakpoints_iff stops source files addresses i =
    let inner = source_part source stops.raw_run_starts files i in
    let outer = add_addresses_iff stops.validated_pos_to_indices i addresses _ in
    (
      (λ h. elim (outer.0 h) [ inl s ↦ inl (inner.0 s) | inr a ↦ inr a ]),
      λ s. elim s [ inl f ↦ outer.1 (inl (inner.1 f)) | inr a ↦ outer.1 (inr a) ],
    )
