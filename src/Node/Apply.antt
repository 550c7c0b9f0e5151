-- ===== src/Node/Apply.antt =====
-- node/src/apply.rs: the errors of effects on the host, the retries of an effect, and the routes
-- that are kept installed. An effect is a step on the state of the host. A set is the list of its
-- elements.
pub mod Retries
mod Tests
use Prim.Native.Nat.{compare, Ordering}
use fluxpeer.Prelude.{
  ℕ, ◌+◌, ◌-◌, ◌*◌, Bool, true, false, not, ◌&&◌, ◌||◌, List, [], ◌∷◌, ◌++◌, Option, none, some,
  ltb, ◌==◌, if◌then◌else◌, min, Result, ok, err, Eq, ◌≟◌, ite, ℕ_discrete, list_dec, nat_eq,
  list_eq,
}
use fluxpeer.Prelude.Text.{Text, text_eq, codes, decimal}
use fluxpeer.Control.Domain.{ℤ, pos, negsuc}

-- The kinds of errors of the standard library that the node looks at.
pub data ErrorKind : Type 0 where
  not_found permission_denied unsupported other : ErrorKind

pub record ApplyError : Type 0 where
  pub command : List Text
  pub exit_code : Option ℤ
  pub stderr : Text
  pub kind : ErrorKind

ErrorKind-discrete : Discrete ErrorKind
ErrorKind-discrete = hlevel

ℤ-discrete : Discrete ℤ
ℤ-discrete = hlevel ℕ_discrete

pub ApplyError-discrete : Discrete ApplyError
ApplyError-discrete = hlevel (ErrorKind-discrete, ℤ-discrete, ℕ_discrete)

instance abbrev pub error_eq : Eq ApplyError
error_eq = record { dec = ApplyError-discrete }

unfoldable pub is_whitespace : ℕ → Bool
is_whitespace c = c == 32 || not (ltb c 9) && ltb c 14

unfoldable pub trim_start : Text → Text
trim_start [] = []
trim_start (c ∷ cs) = let rest = trim_start cs in if is_whitespace c then rest else c ∷ cs

unfoldable pub trim_end : Text → Text
trim_end [] = []
trim_end (c ∷ cs) = elim (trim_end cs) [
  | [] ↦ if is_whitespace c then [] else c ∷ []
  | (d ∷ ds) ↦ c ∷ d ∷ ds
]

-- `join(" ")`.
unfoldable pub joined : List Text → Text
joined [] = []
joined (w ∷ []) = w
joined (w ∷ v ∷ ws) = w ++ codes " " ++ joined (v ∷ ws)

unfoldable pub int_text : ℤ → Text
int_text (pos n) = decimal n
int_text (negsuc n) = codes "-" ++ decimal (n + 1)

-- `{:?}` of the code.
unfoldable pub code_text : Option ℤ → Text
code_text none = codes "None"
code_text (some n) = codes "Some(" ++ int_text n ++ codes ")"

-- Of white space, what a text of ASCII has is trimmed.
unfoldable pub display : ApplyError → Text
display e =
    joined e.command
    ++ codes " (exit "
    ++ code_text e.exit_code
    ++ codes "): "
    ++ trim_end (trim_start e.stderr)

-- Three-way comparisons, the first difference decides.
unfoldable pub then_with : Ordering → Ordering → Ordering
then_with Ordering.lt b = Ordering.lt
then_with Ordering.eq b = b
then_with Ordering.gt b = Ordering.gt

unfoldable pub cmp_text : Text → Text → Ordering
cmp_text [] [] = Ordering.eq
cmp_text [] (y ∷ ys) = Ordering.lt
cmp_text (x ∷ xs) [] = Ordering.gt
cmp_text (x ∷ xs) (y ∷ ys) = then_with (compare x y) (cmp_text xs ys)

unfoldable pub cmp_command : List Text → List Text → Ordering
cmp_command [] [] = Ordering.eq
cmp_command [] (y ∷ ys) = Ordering.lt
cmp_command (x ∷ xs) [] = Ordering.gt
cmp_command (x ∷ xs) (y ∷ ys) = then_with (cmp_text x y) (cmp_command xs ys)

unfoldable pub cmp_int : ℤ → ℤ → Ordering
cmp_int (pos a) (pos b) = compare a b
cmp_int (pos a) (negsuc b) = Ordering.gt
cmp_int (negsuc a) (pos b) = Ordering.lt
cmp_int (negsuc a) (negsuc b) = compare b a

unfoldable pub cmp_code : Option ℤ → Option ℤ → Ordering
cmp_code none none = Ordering.eq
cmp_code none (some b) = Ordering.lt
cmp_code (some a) none = Ordering.gt
cmp_code (some a) (some b) = cmp_int a b

unfoldable pub cmp_error : ApplyError → ApplyError → Ordering
cmp_error a b =
    then_with (cmp_command a.command b.command)
      (then_with (cmp_code a.exit_code b.exit_code) (cmp_text a.stderr b.stderr))

-- A stable sort.
unfoldable pub sort_insert : ApplyError → List ApplyError → List ApplyError
sort_insert e [] = e ∷ []
sort_insert e (f ∷ fs) =
    let rest = sort_insert e fs in elim (cmp_error e f) [ Ordering.gt ↦ f ∷ rest | _ ↦ e ∷ f ∷ fs ]

unfoldable pub sort : List ApplyError → List ApplyError
sort [] = []
sort (e ∷ es) = sort_insert e (sort es)

-- `dedup`: of equal errors in a row the first stays.
unfoldable pub dedup_after : ApplyError → List ApplyError → List ApplyError
dedup_after e [] = []
dedup_after e (f ∷ fs) = elim (f ≟ e) [ yes _ ↦ dedup_after e fs | no _ ↦ f ∷ dedup_after f fs ]

unfoldable pub with_others : ApplyError → List ApplyError → ApplyError
with_others first [] = first
with_others first (e ∷ es) =
    with_others
      (record first { stderr = first.stderr ++ codes "; additional effect: " ++ display e }) es

unfoldable pub errors_of : List (Result (Unit {0}) ApplyError) → List ApplyError
errors_of [] = []
errors_of (ok _ ∷ rs) = errors_of rs
errors_of (err e ∷ rs) = e ∷ errors_of rs

-- One error for all that failed.
unfoldable pub all : List (Result (Unit {0}) ApplyError) → Result (Unit {0}) ApplyError
all results = elim (sort (errors_of results)) [
  | [] ↦ ok tt
  | (e ∷ es) ↦ err (with_others e (dedup_after e es))
]

pub record Status : Type 0 where
  pub last_error : Option ApplyError
  pub applied_epoch : Option ℕ
  pub restart_required : Bool
  pub self_exit : Bool
  pub exit_active : Bool

pub data ApplyEvent : Type 0 where
  failed : ApplyError → ApplyEvent
  recovered : ApplyEvent

-- The same error is not told again.
unfoldable pub news : Option ApplyError → ApplyError → Option ApplyEvent
news none error = some (failed error)
news (some old) error = ite (old ≟ error) none (some (failed error))

unfoldable pub complete_with :
    Status → ℕ → Result (Unit {0}) ApplyError → Status × Option ApplyEvent
complete_with s epoch (ok _) = (
  record s { applied_epoch = some epoch; last_error = none },
  elim s.last_error [ none ↦ none | some _ ↦ some recovered ],
)
complete_with s epoch (err error) = (record s { last_error = some error }, news s.last_error error)

abbrev pub nanos_per_sec : ℕ
nanos_per_sec = 1000000000

pub record Retry : Type 0 where
  pub epoch : Option ℕ
  pub error : Option ApplyError
  pub next : Option ℕ
  pub delay : ℕ

abbrev pub no_retry : Retry
no_retry = record { epoch = none; error = none; next = none; delay = 0 }

-- A new epoch starts afresh.
unfoldable pub renewed : Retry → ℕ → Retry
renewed r epoch = elim r.epoch [
  | none ↦ record no_retry { epoch = some epoch }
  | some e ↦ if e == epoch then r else record no_retry { epoch = some epoch }
]

-- The error of the effect while its next try is not due. Instants are in nanoseconds,
-- and delays in seconds.
unfoldable pub waits : Retry → ℕ → Option ApplyError
waits r now = elim r.next [ none ↦ none | some t ↦ if ltb now t then r.error else none ]

unfoldable pub tried : Retry → ℕ → Result (Unit {0}) ApplyError → Retry
tried r now (ok _) = record r { error = none; next = none; delay = 0 }
tried r now (err error) =
    let delay = if r.delay == 0 then 2 else min (r.delay * 2) 60 in
    record r { delay = delay; next = some (now + delay * nanos_per_sec); error = some error }

-- With what the effect answers if it is run, and whether it is.
unfoldable pub run :
    Retry → ℕ → ℕ → Result (Unit {0}) ApplyError → Retry × Result (Unit {0}) ApplyError × Bool
run r epoch now effect =
    let r' = renewed r epoch in
    elim (waits r' now) [
      | some error ↦ (r', err error, false)
      | none ↦ (tried r' now effect, effect, true)
    ]
