-- ===== src/MqRuntime/Examples.antt =====
-- A client of internal/mqruntime/mqruntime.go that is closed with a subscription at work.
use kc.Prelude.{ℕ, ◌≡◌, refl, true, false, Option, some, none, List, [], ◌∷◌, ◌++◌, All}
use kc.MqRuntime.{
  Error, of_context, of_release, begin, stopped, draining, releasing, returned, finished,
  state_closed, World, new_world,
}
use kc.MqRuntime.Steps.{
  Move, begins, ends, tracks, finishes, announces, closes, expires, stops, goes_on, lapses, apply,
  apply_all,
}
use kc.MqRuntime.Closing.{release_alone}
use kc.MqRuntime.Completing.{closing_steps, close_completes}
use kc.MqRuntime.Stopped.{stop_waits}

-- A subscription is set up; two calls of Close, of which the first runs out of time; Stop, too.
abbrev at_work : List Move
at_work =
    begins
    ∷ tracks 0
    ∷ ends
    ∷ closes 1 none
    ∷ closes 2 none
    ∷ expires 1 (of_context "late")
    ∷ stops 3 0
    ∷ lapses 3 (of_context "late")
    ∷ goes_on 3
    ∷ goes_on 3
    ∷ closes 1 none
    ∷ finishes 0
    ∷ announces 0
    ∷ closes 1 none
    ∷ closes 1 none
    ∷ goes_on 3
    ∷ []

abbrev reached : World → List Move → World
reached w moves = elim (apply_all w moves) [ none ↦ w | some w' ↦ w' ]

at_rest : World
unfolding apply begin
at_rest = reached new_world at_work

at_rest_reached : apply_all new_world at_work ≡ some at_rest
unfolding apply begin at_rest
at_rest_reached = refl

at_rest_phase : at_rest.closers 1 ≡ draining (0 ∷ []) stopped true
unfolding at_rest
at_rest_phase = refl

at_rest_calm : at_rest.lifecycle.operations ≡ 0
unfolding at_rest
at_rest_calm = refl

at_rest_stop : at_rest.stoppers 3 ≡ finished 0 (some (of_context "late"))
unfolding at_rest
at_rest_stop = refl

stop_waits_example : ((at_rest.heap 0).done ≡ true) × ((at_rest.heap 0).finishing ≡ true)
stop_waits_example =
    stop_waits at_work at_rest 3 0 (some (of_context "late")) at_rest_reached at_rest_stop

close_completes_example :
    (n : ℕ) × (w' : World) × (apply_all at_rest (closing_steps n 1 (some (of_release "broken")))
      ≡ some w')
    × (w'.closers 1 ≡ returned (some (of_release "broken")))
    × (w'.lifecycle.state ≡ state_closed)
close_completes_example =
    close_completes at_work at_rest 1 (0 ∷ []) stopped true (some (of_release "broken"))
      at_rest_reached at_rest_phase at_rest_calm tt

abbrev broken : Option Error
broken = some (of_release "broken")

abbrev to_release : List Move
to_release = at_work ++ (closes 1 broken ∷ [])

at_release : World
unfolding apply begin
at_release = reached new_world to_release

at_release_reached : apply_all new_world to_release ≡ some at_release
unfolding apply begin at_release
at_release_reached = refl

at_release_phase : at_release.closers 1 ≡ releasing
unfolding at_release
at_release_phase = refl

released : World
unfolding apply
released = reached at_release (closes 1 broken ∷ [])

released_next : apply at_release (closes 1 broken) ≡ some released
unfolding apply at_release released
released_next = refl

release_alone_example :
    (released.releases ≡ 1)
    × (at_release.lifecycle.operations ≡ 0)
    × ((begin at_release.lifecycle).1 ≡ false)
    × All (λ a. (at_release.heap a).finishing ≡ true) at_release.accepted
release_alone_example =
    release_alone to_release at_release released 1 broken at_release_reached at_release_phase
      released_next

abbrev to_the_end : List Move
to_the_end = to_release ++ (closes 1 broken ∷ closes 1 none ∷ closes 2 none ∷ [])

at_the_end : World
unfolding apply begin
at_the_end = reached new_world to_the_end

at_the_end_reached : apply_all new_world to_the_end ≡ some at_the_end
unfolding apply begin at_the_end
at_the_end_reached = refl

first_returned : at_the_end.closers 1 ≡ returned broken
unfolding at_the_end
first_returned = refl

second_returned : at_the_end.closers 2 ≡ returned broken
unfolding at_the_end
second_returned = refl
