-- ===== src/Server/Safety.antt =====
-- What holds while main of cmd/server/main.go runs.
use queuemaxxing.Base.{◌≡◌, refl, find, find-nil, ap, ◌∙◌, none, [], ℤ, pos_part}
use queuemaxxing.Queue.Engine.Calls.{due_call}
use queuemaxxing.Queue.Manager.{Files, Manager}
use queuemaxxing.Queue.Manager.Names.{get-found}
use queuemaxxing.Queue.Manager.Startup.{new_registry, close_manager}
use queuemaxxing.Queue.Manager.Registry.{IsRegistry, new_manager-IsRegistry}
use queuemaxxing.Api.Stays.{perform-Stays}
use queuemaxxing.Api.Service.{with_queue-IsRegistry, serve-IsRegistry}
use queuemaxxing.Server.Process.{
  Process, boot, handle_request, shut_down, Step, refuses, fails, recovers, answers_one, wakes,
  loses_listener, stops, drains, closes, exits, Reach, booted, later,
}

module _ (threshold : ℤ) (files : Files) where
  empty-IsRegistry : (m : Manager) → m.queues ≡ [] → IsRegistry m
  empty-IsRegistry m e name q found =
      let missing : find name m.queues ≡ none = ap (find name) e ∙ find-nil name in
      absurd (cc (missing, found))

  Step-IsRegistry :
      (s s' : Process) → IsRegistry s.registry → Step threshold files s s' → IsRegistry s'.registry
  unfolding handle_request shut_down
  Step-IsRegistry s _ v (refuses at bad) = v
  Step-IsRegistry s _ v (fails env e m at good h) = v
  Step-IsRegistry s _ v (recovers env m at good h) =
      new_manager-IsRegistry env (pos_part threshold) files m h
  Step-IsRegistry s _ v (answers_one env r up fresh) = serve-IsRegistry s.registry v env r fresh
  Step-IsRegistry s _ v (wakes name env q up got fresh) =
      with_queue-IsRegistry s.registry v name q _ got
        (perform-Stays env q (v name q (get-found name s.registry q got)).valid fresh due_call)
  Step-IsRegistry s _ v (loses_listener env e at) =
      empty-IsRegistry (close_manager env s.registry).1 (unfold close_manager in refl)
  Step-IsRegistry s _ v (stops at) = v
  Step-IsRegistry s _ v (drains at) = v
  Step-IsRegistry s _ v (closes env at) =
      empty-IsRegistry (close_manager env s.registry).1 (unfold close_manager in refl)
  Step-IsRegistry s _ v (exits e at) = v

  Reach-IsRegistry : (s : Process) → Reach threshold files s → IsRegistry s.registry
  unfolding boot
  Reach-IsRegistry _ booted = empty-IsRegistry (new_registry (pos_part threshold) files) refl
  Reach-IsRegistry s' (later {s = s} before step) =
      Step-IsRegistry s s' (Reach-IsRegistry s before) step

-- At every moment of the process, whatever its flag and its data directory, whatever requests have been
-- served, rounds of schedulers run and calls of the operating system failed, with tokens that are not
-- in use: every queue of the registry stands under its own name, which is valid, is open, and has its
-- heaps, messages and receipts in order.
pub process_stays_valid :
    (threshold : ℤ) (files : Files) (s : Process) → Reach threshold files s → IsRegistry s.registry
process_stays_valid threshold files s run = Reach-IsRegistry threshold files s run
