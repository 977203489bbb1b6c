-- ===== src/MqRuntime.antt =====
-- The life of a message queue client, internal/mqruntime/mqruntime.go: its operations in progress,
-- its subscriptions, and Close and Stop, which wait for them. Subscriptions are shared by pointer
-- and stand in a heap; at an address that nothing has used yet stands what NewSubscription returns.
-- A step of a call is the code up to where another goroutine can come in.
pub mod Steps
pub mod Invariant
pub mod Keeping
pub mod Stopping
pub mod Leading
pub mod Closing
pub mod Completing
pub mod Stopped
mod Examples
use kc.Prelude.{
  ℕ, zero, suc, ◌+◌, ◌-◌, Bool, true, false, not, Option, some, none, List, [], ◌∷◌, if◌then◌else◌,
  ◌==◌,
}
use kc.Prelude.Names.{String}
use kc.Prelude.Selecting.{contains, filter}

-- ErrClosed, context.Canceled, and the errors that a context or the release of a client has.
pub data Error : Type 0 where
  err_closed : Error
  canceled : Error
  of_context : String → Error
  of_release : String → Error

pub data State : Type 0 where
  state_open state_closing state_closed : State

-- pollCtx has ended; workCtx has ended, with its cause; Finish has begun; `done` is closed.
pub record Subscription : Type 0 where
  pub poll_stopped : Bool
  pub cause : Option Error
  pub finishing : Bool
  pub done : Bool

abbrev pub new_subscription : Subscription
new_subscription = record { poll_stopped = false; cause = none; finishing = false; done = false }

abbrev pub stop_poll : Subscription → Subscription
stop_poll s = record s { poll_stopped = true }

-- The first cause stays.
abbrev pub cancel_work : Error → Subscription → Subscription
cancel_work e s = record s { cause = elim s.cause [ none ↦ some e | some first ↦ some first ] }

abbrev pub abort : Error → Subscription → Subscription
abort e s = cancel_work e (stop_poll s)

pub record Lifecycle : Type 0 where
  pub state : State
  pub subscriptions : List ℕ
  pub operations : ℕ
  pub close_done : Bool
  pub close_err : Option Error

abbrev pub new_lifecycle : Lifecycle
new_lifecycle = record {
  state = state_open;
  subscriptions = [];
  operations = 0;
  close_done = false;
  close_err = none;
}

abbrev pub is_open : State → Bool
is_open state_open = true
is_open state_closing = false
is_open state_closed = false

unfoldable pub begin : Lifecycle → Lifecycle × Bool
begin l = if is_open l.state then (record l { operations = l.operations + 1 }, true) else (l, false)

-- A counter below zero panics.
abbrev pub end_operation : Lifecycle → Option Lifecycle
end_operation l =
    if l.operations == 0 then none else some (record l { operations = l.operations - 1 })

abbrev pub track : Lifecycle → ℕ → Lifecycle × Bool
track l a =
    if is_open l.state
    then (
      record l {
        subscriptions = if contains l.subscriptions a then l.subscriptions else a ∷ l.subscriptions;
      },
      true,
    )
    else (l, false)

abbrev pub untrack : Lifecycle → ℕ → Lifecycle
untrack l a = record l { subscriptions = filter (λ b. not (b == a)) l.subscriptions }

-- The goroutine that waits for the operations and then for each subscription.
pub data Drain : Type 0 where
  counting : Drain
  awaiting : List ℕ → Drain
  stopped : Drain

-- Where a call of Close stands: before it; waiting for the first call; waiting for its own
-- goroutine, with its subscriptions, and whether its context has ended; about to release the client;
-- with the result of the release; and at its end.
pub data ClosePhase : Type 0 where
  outside : ClosePhase
  blocked : ClosePhase
  draining : List ℕ → Drain → Bool → ClosePhase
  releasing : ClosePhase
  recording : Option Error → ClosePhase
  returned : Option Error → ClosePhase
  given_up : Error → ClosePhase

-- Where a call of Stop stands, with its subscription and the error of its context.
pub data StopPhase : Type 0 where
  idle : StopPhase
  expecting : ℕ → StopPhase
  expired : ℕ → Error → StopPhase
  forcing : ℕ → Error → StopPhase
  forced : ℕ → Error → StopPhase
  finished : ℕ → Option Error → StopPhase

-- The client with the calls of Close and Stop; the subscriptions that Track has accepted, and how
-- often a client has been released, are kept for the theorems.
pub record World : Type 0 where
  pub lifecycle : Lifecycle
  pub heap : ℕ → Subscription
  pub closers : ℕ → ClosePhase
  pub stoppers : ℕ → StopPhase
  pub accepted : List ℕ
  pub releases : ℕ

abbrev pub new_world : World
new_world = record {
  lifecycle = new_lifecycle;
  heap = λ a. new_subscription;
  closers = λ i. outside;
  stoppers = λ i. idle;
  accepted = [];
  releases = 0;
}

abbrev pub set_at {ℓ} : {A : Type ℓ} → (ℕ → A) → ℕ → A → ℕ → A
set_at f i v = λ j. if j == i then v else f j

abbrev pub update : (Subscription → Subscription) → ℕ → (ℕ → Subscription) → ℕ → Subscription
update f a heap = set_at heap a (f (heap a))

abbrev pub update_all :
    (Subscription → Subscription) → List ℕ → (ℕ → Subscription) → ℕ → Subscription
update_all f [] heap = heap
update_all f (a ∷ rest) heap = update_all f rest (update f a heap)

abbrev pub close_to : World → ℕ → ClosePhase → World
close_to w i phase = record w { closers = set_at w.closers i phase }

abbrev pub stop_to : World → ℕ → StopPhase → World
stop_to w i phase = record w { stoppers = set_at w.stoppers i phase }
