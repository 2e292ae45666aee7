-- ===== src/Operations/Checks.antt =====
-- The CHECKs of management.operations, for the values that `OperationStore` writes.
use radius_todolist_app.Prelude.{
  String, ◌≡◌, ◌≢◌, refl, ◌⊎◌, inl, inr, true, false, Option, none, some, arith, eq_refl, eq_iff,
  str_eq, Bool-cases,
}
use radius_todolist_app.Tables.{Operation}
use radius_todolist_app.Operations.{admits, is_stage, fits_error_code}

pub admits_literals :
    (o : Operation)
    → (admits o "starting" none ≡ true)
      × (admits o "available" none ≡ true)
      × (admits o o.stage (some "provisioner_restarted") ≡ true)
unfolding admits is_stage fits_error_code
admits_literals o = (refl, refl, rw (eq_refl o.stage) (ground arith))

-- The values pass the CHECKs, where the row holds values that do.
abbrev pub Passes : Operation → String → Option String → Type 0
Passes o stage error_code =
    ((is_stage stage ≡ true) ⊎ (o.stage ≡ stage)) × (fits_error_code error_code ≡ true)

-- They break one.
abbrev pub Breaks : Operation → String → Option String → Type 0
Breaks o stage error_code =
    ((is_stage stage ≡ false) × (o.stage ≢ stage)) ⊎ (fits_error_code error_code ≡ false)

pub admits-Passes :
    (o : Operation) (stage : String) (error_code : Option String)
    → admits o stage error_code ≡ true
    → Passes o stage error_code
unfolding admits
admits-Passes o stage error_code h = elim (Bool-cases (is_stage stage)) [
  | inl t ↦ (inl t, ground arith)
  | inr f ↦ (inr ((eq_iff o.stage stage).0 (ground arith)), ground arith)
]

pub admits-Breaks :
    (o : Operation) (stage : String) (error_code : Option String)
    → admits o stage error_code ≡ false
    → Breaks o stage error_code
unfolding admits
admits-Breaks o stage error_code h = elim (Bool-cases (fits_error_code error_code)) [
  | inr f ↦ inr f
  | inl t ↦ inl (
    ground arith,
    λ e. let same : str_eq o.stage stage ≡ true = (eq_iff o.stage stage).1 e in ground arith,
  )
]
