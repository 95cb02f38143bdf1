-- ===== src/Apiserver/Codes.antt =====
-- The status codes that the handlers of internal/apiserver answer with. A code stands for the whole
-- answer: its text is left out.
use nimbuscore.Cluster.{M, Error, denied, Result, ok, err}

abbrev pub invalid_argument : Error
invalid_argument = denied "InvalidArgument"

abbrev pub internal : Error
internal = denied "Internal"

abbrev pub not_there : Error
not_there = denied "NotFound"

abbrev pub already_exists : Error
already_exists = denied "AlreadyExists"

abbrev pub failed_precondition : Error
failed_precondition = denied "FailedPrecondition"

abbrev pub permission_refused : Error
permission_refused = denied "PermissionDenied"

abbrev pub not_authenticated : Error
not_authenticated = denied "Unauthenticated"

abbrev pub recoded : {A : Type 0} → Error → Result A → Result A
recoded code (ok a) = ok a
recoded code (err e) = err code

-- An error of the action is answered with the code.
abbrev pub answering : {A : Type 0} → Error → M A → M A
answering code m s = let (r, t) = m s in (recoded code r, t)
