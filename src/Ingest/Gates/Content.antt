-- ===== src/Ingest/Gates/Content.antt =====
-- What the content gates that pass have checked
-- (`run_content_gates` of packages/dist-ingest/src/dist_ingest/gates.py).
use dev_tools_distribution_p.Base.{
  ◌≡◌, refl, sym, ap, ◌∙◌, ◌⊎◌, Bool, true, false, ℕ, Option, none, some, List, [], ◌∷◌, ◌++◌,
  arith, nat_eq, list_eq, contains, In, In-append, append-In, Result, ok, ◌>>=◌, ◌>>◌, require,
  gate_error, >>=-eq-ok, require-eq-ok, Option-cases, Bool-cases, inl, inr,
}
use dev_tools_distribution_p.Base.Text.{Str, Bytes, text}
use dev_tools_distribution_p.Ingest.Gates.{
  ContentGates, run_gate, run_sbom, on_file, on_file_of, has_bytes, run_content_gates,
}

-- A gate is named as skipped, and then reported; or it is configured and ran and passed.
abbrev pub IsPassed : Str → List Str → List Str → Option (Result Bool) → Type 0
IsPassed name skip skipped gate =
    ((contains name skip ≡ true) × In name skipped)
    ⊎ ((contains name skip ≡ false) × (gate ≡ some (ok true)))

run_gate-eq-ok :
    (name : Str) (skip : List Str) (gate : Option (Result Bool)) (out : List Str)
    → run_gate name skip gate ≡ ok out
    → ((contains name skip ≡ true) × (out ≡ name ∷ []))
      ⊎ ((contains name skip ≡ false) × (gate ≡ some (ok true)) × (out ≡ []))
unfolding run_gate
run_gate-eq-ok name skip gate out h = elim (Bool-cases (contains name skip)) [
  | inl s ↦ inl (s, ground arith)
  | inr s ↦ elim (Option-cases gate) [
    | inl n ↦ ground arith
    | inr (run, e) ↦
        let inner : (run >>= λ passed. require passed gate_error >> ok []) ≡ ok out =
          ground arith in
        let (passed, a, h1) = >>=-eq-ok run (λ passed. require passed gate_error >> ok []) inner in
        let (b, h2) = require-eq-ok passed gate_error (ok []) h1 in
        inr (s, ground arith, ground arith)
  ]
]

module _ (name : Str) (skip : List Str) (gate : Option (Result Bool)) (out : List Str)
    (e : run_gate name skip gate ≡ ok out) where
  run_gate-IsPassed :
      (skipped : List Str) → ((n : Str) → In n out → In n skipped) → IsPassed name skip skipped gate
  run_gate-IsPassed skipped within = elim (run_gate-eq-ok name skip gate out e) [
    | inl (s, o) ↦ inl (s, within name (rw o (inl refl)))
    | inr (s, p, o) ↦ inr (s, p)
  ]

  run_gate-named : (n : Str) → In n out → contains n skip ≡ true
  run_gate-named n m = elim (run_gate-eq-ok name skip gate out e) [
    | inl (s, o) ↦ elim (rw o at m) [
      | inl q ↦ ap (λ x. contains x skip) (sym q) ∙ s
      | inr h ↦ absurd h
    ]
    | inr (s, p, o) ↦ absurd (rw o at m)
  ]

-- What is known of the SBOM: its gate is named as skipped, and then reported; or one is required, and it
-- is there and not empty; or none is required, and then nothing was looked at and nothing is reported.
pub data SbomGate (gates : ContentGates) (skipped : List Str) (sbom : Option Bytes) : Type 0 where
  named :
      contains (text "sbom") gates.skip ≡ true
      → In (text "sbom") skipped
      → SbomGate gates skipped sbom
  present :
      contains (text "sbom") gates.skip ≡ false
      → (b : ℕ) (bytes : Bytes) → sbom ≡ some (b ∷ bytes)
      → SbomGate gates skipped sbom
  not_asked :
      contains (text "sbom") gates.skip ≡ false
      → gates.require_sbom ≡ false
      → (In (text "sbom") skipped → ⊥)
      → SbomGate gates skipped sbom

has_bytes-eq_true :
    (sbom : Option Bytes)
    → has_bytes sbom ≡ true
    → (b : ℕ) × (bytes : Bytes) × (sbom ≡ some (b ∷ bytes))
has_bytes-eq_true none h = cc
has_bytes-eq_true (some []) h = cc
has_bytes-eq_true (some (b ∷ bytes)) h = (b, bytes, refl)

run_sbom-eq-ok :
    (gates : ContentGates) (sbom : Option Bytes) (out : List Str)
    → run_sbom gates sbom ≡ ok out
    → ((contains (text "sbom") gates.skip ≡ true) × (out ≡ text "sbom" ∷ []))
      ⊎ ((contains (text "sbom") gates.skip ≡ false)
          × ((gates.require_sbom ≡ false) ⊎ (has_bytes sbom ≡ true))
          × (out ≡ []))
unfolding run_sbom
run_sbom-eq-ok gates sbom out h = elim (Bool-cases (contains (text "sbom") gates.skip)) [
  | inl s ↦ inl (s, ground arith)
  | inr s ↦ elim (Bool-cases gates.require_sbom) [
    | inr free ↦ inr (s, inl free, ground arith)
    | inl asked ↦ elim (Bool-cases (has_bytes sbom)) [
      | inl there ↦ inr (s, inr there, ground arith)
      | inr empty ↦ absurd (ground arith)
    ]
  ]
]

module _ (gates : ContentGates) (sbom : Option Bytes) (out : List Str)
    (e : run_sbom gates sbom ≡ ok out) where
  run_sbom-SbomGate :
      (skipped : List Str)
      → ((n : Str) → In n out → In n skipped)
      → ((n : Str) → In n skipped → contains n gates.skip ≡ true)
      → SbomGate gates skipped sbom
  run_sbom-SbomGate skipped within only = elim (run_sbom-eq-ok gates sbom out e) [
    | inl (s, o) ↦ named s (within (text "sbom") (rw o (inl refl)))
    | inr (s, inl free, o) ↦ not_asked s free (λ m. let t = only (text "sbom") m in ground arith)
    | inr (s, inr there, o) ↦
        let (b, bytes, is) = has_bytes-eq_true sbom there in present s b bytes is
  ]

  run_sbom-named : (n : Str) → In n out → contains n gates.skip ≡ true
  run_sbom-named n m = elim (run_sbom-eq-ok gates sbom out e) [
    | inl (s, o) ↦ elim (rw o at m) [
      | inl q ↦ ap (λ x. contains x gates.skip) (sym q) ∙ s
      | inr h ↦ absurd h
    ]
    | inr (s, p, o) ↦ absurd (rw o at m)
  ]

-- A run of the content gates that raises nothing has, for the scanner and for the publisher check, either
-- skipped it by name and reported that, or run it with a result that passes: one that is absent, or
-- raises, or refuses, is never a pass. An SBOM is there, or its gate was skipped by name and reported, or
-- the policy requires none; in that last case nothing was looked at, and the report does not say so. All
-- that is reported was named to be skipped.
pub run_content_gates_lem :
    (file : Bytes) (app_id : Str) (gates : ContentGates) (sbom : Option Bytes) (skipped : List Str)
    → run_content_gates file app_id gates sbom ≡ ok skipped
    → IsPassed (text "malware") gates.skip skipped (on_file gates.malware file)
      × IsPassed (text "publisher") gates.skip skipped (on_file_of gates.publisher file app_id)
      × SbomGate gates skipped sbom
      × ((name : Str) → In name skipped → contains name gates.skip ≡ true)
unfolding run_content_gates
run_content_gates_lem file app_id gates sbom skipped h =
    let (a, ha, h1) =
      >>=-eq-ok (run_gate (text "malware") gates.skip (on_file gates.malware file)) _ h in
    let (b, hb, h2) =
      >>=-eq-ok (run_gate (text "publisher") gates.skip (on_file_of gates.publisher file app_id)) _
        h1 in
    let (c, hc, h3) = >>=-eq-ok (run_sbom gates sbom) _ h2 in
    let joined : (a ++ b) ++ c ≡ skipped = ground arith in
    let mal = run_gate-IsPassed (text "malware") gates.skip (on_file gates.malware file) a ha in
    let publisher =
      run_gate-IsPassed (text "publisher") gates.skip (on_file_of gates.publisher file app_id) b
        hb in
    let only : (n : Str) → In n skipped → contains n gates.skip ≡ true = λ n m.
      elim (In-append (a ++ b) c n (rw (sym joined) at m)) [
        | inl ab ↦ elim (In-append a b n ab) [
          | inl k ↦ run_gate-named (text "malware") gates.skip (on_file gates.malware file) a ha n k
          | inr k ↦
              run_gate-named (text "publisher") gates.skip (on_file_of gates.publisher file app_id)
                b hb n k
        ]
        | inr k ↦ run_sbom-named gates sbom c hc n k
      ] in
    (
      mal skipped (λ n m. rw (sym joined) (append-In (a ++ b) c n (inl (append-In a b n (inl m))))),
      publisher skipped
          (λ n m. rw (sym joined) (append-In (a ++ b) c n (inl (append-In a b n (inr m))))),
      run_sbom-SbomGate gates sbom c hc skipped
          (λ n m. rw (sym joined) (append-In (a ++ b) c n (inr m))) only,
      only,
    )
