-- ===== src/Mock/Tests.antt =====
-- A head motion that a motion of the tail overtakes.
use ai_cat_controller.Base.{◌≡◌, refl, [], ◌∷◌, any, eqb, inl, inr}
use ai_cat_controller.Mock.{
  Part, World, end_motion, run_motion, shake_head, stop_motion, wag_tail, initial,
}
use ai_cat_controller.Mock.Motions.{Reach, Step, Reach-stop_motion, started}

abbrev begun : World
begun = wag_tail "t2" (shake_head "t1" (started ("a" ∷ []) 0))

abbrev overtaken : World
overtaken = end_motion (record { generation = 1; part = Part.head }) begun

begun-Reach : Reach (started ("a" ∷ []) 0) begun
begun-Reach = Reach.next (Reach.next Reach.here (Step.shake "t1")) (Step.wag "t2")

overtaken-Reach : Reach (started ("a" ∷ []) 0) overtaken
unfolding shake_head wag_tail run_motion initial
overtaken-Reach =
    Reach.next begun-Reach
      (Step.finish (record { generation = 1; part = Part.head }) (inr (inl refl)))

head_state_stays : overtaken.adapter.head_state ≡ "head_shake"
unfolding end_motion shake_head wag_tail run_motion initial
head_state_stays = refl

Reach-stop_motion_example :
    (stop_motion overtaken.adapter).0
    ≡ any (λ m. eqb m.generation overtaken.adapter.generation) overtaken.live
Reach-stop_motion_example = Reach-stop_motion ("a" ∷ []) 0 overtaken overtaken-Reach
