-- ===== src/Task/Named.antt =====
-- The policy of a task, and what the calls by name find of it.
use basearch.Prelude.{ℕ, ◌≡◌, refl, List}
use basearch.Registry.{Registry}
use basearch.Task.{World, base_task_create, launch, chosen_policy}

-- A task is created as it would be with any other policy: the argument has no effect.
pub create-any_policy :
    (w : World) (idx : ℕ) (name : List ℕ) (policy policy' priority stacksize func arg : ℕ)
    (g : Registry)
    → base_task_create w idx name policy priority stacksize func arg g
      ≡ base_task_create w idx name policy' priority stacksize func arg g
unfolding base_task_create launch chosen_policy
create-any_policy w idx name policy policy' priority stacksize func arg g = refl
