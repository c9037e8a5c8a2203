-- ===== src/WorkPlan/Service/Keeps.antt =====
-- Rules for the methods of the service: what each call of a lawful store does to the soundness of the
-- stored tasks.
use go_mivia.Base.{String, ◌≡◌, refl, sym, subst, ◌∙◌, inl, inr}
use go_mivia.Base.Result.{Result, ok, err}
use go_mivia.Base.Exec.{Exec, continue, ◌>>=◌, Keeps}
use go_mivia.WorkPlan.Model.{WorkTask, Attachment}
use go_mivia.WorkPlan.Store.{WorkPlanStore, IsLawful, found_task}
use go_mivia.WorkPlan.Transition.Finish.{IsSound}
use go_mivia.WorkPlan.Service.{Env, World, call, now, new_id}

-- All tasks that can be found in the store are sound.
pub record Sound {S : Type 0} (store : WorkPlanStore S) (w : World S) : Type 0 where
  pub at : (p i : String) (x : WorkTask) → found_task store p i w.db ≡ ok x → IsSound x

module _ {S : Type 0} (store : WorkPlanStore S) (law : IsLawful store) where
  pub Keeps-read :
      {A : Type 0} (m : Exec S A) → ((s : S) → (m s).1 ≡ s) → Keeps (Sound store) (call m)
  unfolding call
  Keeps-read m reads = record {
    at = λ w h. record {
      at = λ p i x e. h.at p i x (subst (λ s. found_task store p i s ≡ ok x) (reads w.db) e);
    };
  }

  pub Keeps-now : (env : Env) → Keeps (Sound store) (now env)
  unfolding now
  Keeps-now env = record { at = λ w h. record { at = h.at } }

  pub Keeps-new_id : (env : Env) (prefix : String) → Keeps (Sound store) (new_id env prefix)
  unfolding new_id
  Keeps-new_id env prefix = record { at = λ w h. record { at = h.at } }

  pub Keeps-update :
      (t : WorkTask) → IsSound t → Keeps (Sound store) (call (store.update_work_task t))
  unfolding call
  Keeps-update t sound = record {
    at = λ w h. record {
      at = λ p i x e. elim (law.update_task_frame t w.db p i x e) [
        | inl q ↦ subst IsSound (sym q) sound
        | inr q ↦ h.at p i x q
      ];
    };
  }

  pub Keeps-create :
      (t : WorkTask) → IsSound t → Keeps (Sound store) (call (store.create_work_task t))
  unfolding call
  Keeps-create t sound = record {
    at = λ w h. record {
      at = λ p i x e. elim (law.create_task_frame t w.db p i x e) [
        | inl q ↦ subst IsSound (sym q) sound
        | inr q ↦ h.at p i x q
      ];
    };
  }

  pub Keeps-create_attachment :
      (a : Attachment) → Keeps (Sound store) (call (store.create_attachment a))
  unfolding call
  Keeps-create_attachment a = record {
    at = λ w h. record {
      at = λ p i x e. h.at p i x (sym (law.create_attachment_frame a w.db p i) ∙ e);
    };
  }

  after_get :
      {B : Type 0} (r : Result WorkTask) (f : WorkTask → Exec (World S) B) (w : World S)
      → ((x : WorkTask) → r ≡ ok x → IsSound x)
      → ((x : WorkTask) → IsSound x → Keeps (Sound store) (f x))
      → Sound store w
      → Sound store (continue r f w).1
  after_get (ok x) f w sound kf h = (kf x (sound x refl)).at w h
  after_get (err e) f w sound kf h = h

  -- The rest may use that a task read from a sound store is sound.
  pub Keeps-get :
      {B : Type 0} (p i : String) (f : WorkTask → Exec (World S) B)
      → ((x : WorkTask) → IsSound x → Keeps (Sound store) (f x))
      → Keeps (Sound store) (call (store.get_work_task p i) >>= f)
  unfolding call ◌>>=◌
  Keeps-get p i f kf = record {
    at = λ w h.
        after_get (found_task store p i w.db) f (call (store.get_work_task p i) w).1 (h.at p i) kf
          ((Keeps-read (store.get_work_task p i) (law.get_task_reads p i)).at w h);
  }

  -- A write that leaves what is found under every key.
  pub Keeps-plan :
      {A : Type 0} (m : Exec S A)
      → ((s : S) (p i : String) → found_task store p i (m s).1 ≡ found_task store p i s)
      → Keeps (Sound store) (call m)
  unfolding call
  Keeps-plan m frame = record {
    at = λ w h. record { at = λ p i x e. h.at p i x (sym (frame w.db p i) ∙ e) };
  }
