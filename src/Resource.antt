-- ===== src/Resource.antt =====
-- pkg/resource/resource.go: resources under a name and a type, and GetOrCreate, whose callers share
-- one run of the factory. Each step is the code between two locks. Types and values are numbers,
-- and `cast` is the identity, since a value stands under its own type.
pub mod Invariant
pub mod Flight
mod Examples
use kc.Prelude.{
  ℕ, Bool, true, false, Option, none, some, List, [], ◌∷◌, if◌then◌else◌, ◌==◌, ◌&&◌, Result, ok,
  err,
}
use kc.Prelude.Names.{String, same}

pub data Error : Type 0 where
  empty_name nil_factory : Error
  factory_failed : ℕ → Error

pub record ResourceKey : Type 0 where
  pub name : String
  pub typ : ℕ

unfoldable pub same_key : ResourceKey → ResourceKey → Bool
same_key k l = same k.name l.name && (k.typ == l.typ)

-- How a factory ends.
pub data Created : Type 0 where
  made : ℕ → Created
  failed : ℕ → Created
  panicked : ℕ → Created

-- How GetOrCreate ends: a value, an error, or a panic.
pub data Answer : Type 0 where
  got : ℕ → Answer
  refused : Error → Answer
  raised : ℕ → Answer

-- What the caller of the factory and those that wait for it make of its end.
abbrev pub answer_of : Created → Answer
answer_of (made v) = got v
answer_of (failed e) = refused (factory_failed e)
answer_of (panicked p) = raised p

-- Where a call of GetOrCreate stands: before its first look, before it takes the lock, waiting for
-- the call that another one has opened, running the factory, or at its end.
pub data Phase : Type 0 where
  probing missed making : Phase
  waiting : ℕ → Phase
  answered : Answer → Phase

-- The arguments of a call.
pub record Request : Type 0 where
  pub key : ResourceKey
  pub has_factory : Bool

-- The maps of the package, the `resourceCall` that each call has opened (by the number of the call,
-- with the end of its factory once `done` is closed), and where each call stands.
pub record World : Type 0 where
  pub values : ResourceKey → Option ℕ
  pub creating : ResourceKey → Option ℕ
  pub calls : ℕ → Option Created
  pub phases : ℕ → Phase

abbrev pub update : (ResourceKey → Option ℕ) → ResourceKey → Option ℕ → ResourceKey → Option ℕ
update m key v = λ k. if same_key k key then v else m k

unfoldable pub set_resource : World → ResourceKey → ℕ → World × Result Error (Unit {0})
set_resource w key v =
    if same key.name ""
    then (w, err empty_name)
    else (record w { values = update w.values key (some v) }, ok tt)

unfoldable pub get_resource : World → ResourceKey → Option ℕ
get_resource w key = if same key.name "" then none else w.values key

-- `Shutdown` up to the calls of Close: the values that it takes away are the old ones.
unfoldable pub shutdown : World → World
shutdown w = record w { values = λ key. none }

abbrev pub set_phase : World → ℕ → Phase → World
set_phase w i phase = record w { phases = λ j. if j == i then phase else w.phases j }

-- The call opens a `resourceCall` of its own.
abbrev pub open_call : World → ResourceKey → ℕ → World
open_call w key i = record w {
  creating = update w.creating key (some i);
  calls = λ j. if j == i then none else w.calls j;
  phases = λ j. if j == i then making else w.phases j;
}

abbrev pub stored_value : (ResourceKey → Option ℕ) → ResourceKey → Created → ResourceKey → Option ℕ
stored_value values key (made v) = update values key (some v)
stored_value values key (failed e) = values
stored_value values key (panicked p) = values

-- The end of `create`, after the factory has returned or panicked.
abbrev pub settle : World → ResourceKey → ℕ → Created → World
settle w key i r = record w {
  values = stored_value w.values key r;
  creating = update w.creating key none;
  calls = λ j. if j == i then some r else w.calls j;
  phases = λ j. if j == i then answered (answer_of r) else w.phases j;
}

abbrev pub probe : World → Request → ℕ → World
probe w request i =
    if same request.key.name ""
    then set_phase w i (answered (refused empty_name))
    else if request.has_factory
    then elim (w.values request.key) [
      | some v ↦ set_phase w i (answered (got v))
      | none ↦ set_phase w i missed
    ]
    else set_phase w i (answered (refused nil_factory))

abbrev pub enter : World → ResourceKey → ℕ → Option ℕ → Option ℕ → World
enter w key i (some v) creating = set_phase w i (answered (got v))
enter w key i none (some c) = set_phase w i (waiting c)
enter w key i none none = open_call w key i

-- A wait goes on as long as the call is not done.
abbrev pub wake : World → ℕ → Option Created → World
wake w i none = w
wake w i (some r) = set_phase w i (answered (answer_of r))

-- The next step of a call of GetOrCreate; `r` is the end of its factory if it runs it.
abbrev pub advance : World → Request → ℕ → Phase → Created → World
advance w request i probing r = probe w request i
advance w request i missed r = enter w request.key i (w.values request.key) (w.creating request.key)
advance w request i making r = settle w request.key i r
advance w request i (waiting c) r = wake w i (w.calls c)
advance w request i (answered a) r = w

pub data Move : Type 0 where
  moves : ℕ → Created → Move
  sets : ResourceKey → ℕ → Move
  shuts_down : Move

module _ (requests : ℕ → Request) where
  unfoldable pub get_or_create : World → ℕ → Created → World
  get_or_create w i r = advance w (requests i) i (w.phases i) r

  abbrev pub apply : World → Move → World
  apply w (moves i r) = get_or_create w i r
  apply w (sets key v) = (set_resource w key v).0
  apply w shuts_down = shutdown w

  abbrev pub apply_all : World → List Move → World
  apply_all w [] = w
  apply_all w (m ∷ rest) = apply_all (apply w m) rest
