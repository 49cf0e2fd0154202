-- ===== src/FieldError.antt =====
-- Kubernetes' field.Path and field.Error, with the kind and the path of an error; the value and the
-- text that an error shows are left out.
use furiko.Prelude.{◌≡◌, refl, ◌++◌, ℕ, Bool, true, false, List, [], ◌∷◌, String, if◌then◌else◌}

pub data Segment : Type 0 where
  child : String → Segment
  index : ℕ → Segment
  key : String → Segment

-- The innermost segment stands first.
abbrev pub FieldPath : Type 0
FieldPath = List Segment

pub data ErrorType : Type 0 where
  invalid required not_supported forbidden not_found internal duplicate : ErrorType

pub record FieldError : Type 0 where
  pub error_type : ErrorType
  pub path : FieldPath

abbrev pub ErrorList : Type 0
ErrorList = List FieldError

abbrev pub error_at : ErrorType → FieldPath → FieldError
error_at kind path = record { error_type = kind; path = path }

-- An error where a test fails, and none where it holds.
abbrev pub unless : Bool → ErrorType → FieldPath → ErrorList
unless test kind path = if test then [] else error_at kind path ∷ []

-- Two lists of errors that are empty together are each empty.
pub append-nil : (xs ys : ErrorList) → xs ++ ys ≡ [] → (xs ≡ []) × (ys ≡ [])
append-nil [] ys e = (refl, e)
append-nil (x ∷ xs) ys e = absurd (cc)

pub unless-nil :
    (test : Bool) (kind : ErrorType) (path : FieldPath) → unless test kind path ≡ [] → test ≡ true
unless-nil true kind path e = refl
unless-nil false kind path e = absurd (cc)
