-- ===== src/Queue/Manager/Names.antt =====
-- Names across Create, Get and Delete of internal/queue/manager.go.
use text.Mathlib.TextPositions.{eq_refl}
use queuemaxxing.Base.{
  ◌≡◌, refl, sym, ap, ◌∙◌, String, true, false, Option, Option-cases, inl, inr, none, some, List,
  [], ◌∷◌, ok, err, arith, find, put, drop_key, find-put, find-drop_key,
}
use queuemaxxing.Storage.Record.{Header, header}
use queuemaxxing.Storage.Log.{LogError, exists}
use queuemaxxing.Queue.Message.{Ordering}
use queuemaxxing.Queue.Engine.State.{Queue}
use queuemaxxing.Queue.Engine.Operations.{close}
use queuemaxxing.Queue.Replay.{new_queue}
use queuemaxxing.Queue.Manager.{
  LogFile, whole, Files, Manager, ManagerError, queue_exists, queue_not_found, storage_failed,
  as_exists, name_ok, CreateEnv, create_log, header_of, config_for, create_queue, create, get,
  close_queue, DeleteEnv, delete_found, delete_queue, RemoveEnd, removed, absent, not_removed,
  not_synced, remove_log,
}

find-put_self :
    {A : Type 0} (k : String) (v : A) (m : List (String × A)) → find k (put k v m) ≡ some v
find-put_self k v m = simp (find-put, eq_refl)

find-drop_key_self :
    {A : Type 0} (k : String) (m : List (String × A)) → find k (drop_key k m) ≡ none
find-drop_key_self k m = simp (find-drop_key, eq_refl)

module _ (env : CreateEnv) (name : String) (ordering : Ordering) (m : Manager)
    (good : name_ok name ≡ true) (free : find name m.queues ≡ none) where
  abbrev first_header : Header
  first_header = header_of (config_for env name ordering)

  abbrev first_queue : Queue
  first_queue =
      new_queue (config_for env name ordering) (header first_header ∷ []) 1 0 0 m.compact_threshold

  module _ (no_file : find name m.files ≡ none) (opens : env.open_error ≡ none)
      (fine : env.create_error ≡ none) where
    abbrev with_file : Files
    with_file = put name (whole (header first_header ∷ [])) m.files

    create_log-fresh : create_log env name first_header m.files ≡ (none, with_file)
    unfolding create_log
    create_log-fresh = simp (opens, no_file, fine, create_log)

    create_queue-fresh :
        create_queue env (config_for env name ordering) m.compact_threshold m.files
        ≡ (ok first_queue, with_file)
    unfolding create_queue
    create_queue-fresh = simp (good, create_log-fresh)

    pub create-fresh :
        create env name ordering m
        ≡ (ok first_queue, record m { files = with_file; queues = put name first_queue m.queues })
    unfolding create
    create-fresh = simp (good, free, create_queue-fresh)

  module _ (file : LogFile) (there : find name m.files ≡ some file)
      (opens : env.open_error ≡ none) where
    create_log-blocked : create_log env name first_header m.files ≡ (some exists, m.files)
    unfolding create_log
    create_log-blocked = simp (opens, there, create_log)

    create_queue-blocked :
        create_queue env (config_for env name ordering) m.compact_threshold m.files
        ≡ (err (storage_failed exists), m.files)
    unfolding create_queue
    create_queue-blocked = simp (good, create_log-blocked)

    pub create-blocked : create env name ordering m ≡ (err queue_exists, m)
    unfolding create
    create-blocked = simp (good, free, create_queue-blocked)

  -- os.OpenFile fails, so that no file is made
  module _ (e : LogError) (refused : env.open_error ≡ some e) where
    create_log-refused : create_log env name first_header m.files ≡ (some e, m.files)
    unfolding create_log
    create_log-refused = simp (refused, create_log)

    create_queue-refused :
        create_queue env (config_for env name ordering) m.compact_threshold m.files
        ≡ (err (storage_failed e), m.files)
    unfolding create_queue
    create_queue-refused = simp (good, create_log-refused)

    pub create-refused : create env name ordering m ≡ (err (as_exists (storage_failed e)), m)
    unfolding create
    create-refused = simp (good, free, create_queue-refused)

-- the registry behind Queue.Close in Delete
abbrev closed_out : DeleteEnv → String → Queue → Manager → Manager
closed_out env name q m = record m {
  queues = drop_key name m.queues;
  files = put name (env.left (close env.call q).log) m.files;
}

get-missing :
    (name : String) (m : Manager) → find name m.queues ≡ none → get name m ≡ err queue_not_found
unfolding get
get-missing name m e = simp (e, get)

close_queue-failing :
    (env : DeleteEnv) (q : Queue) (e : LogError)
    → q.closed ≡ false
    → env.close_error ≡ some e
    → close_queue env.call env.close_error q ≡ (some e, close env.call q)
unfolding close_queue
close_queue-failing env q e open_ fails = rw (open_, fails) refl

removed_out :
    (end : RemoveEnd) (name : String) (files : Files)
    → (remove_log end name files).0 ≡ none
    → find name (remove_log end name files).1 ≡ none
unfolding remove_log
removed_out removed name files h = find-drop_key_self name files
removed_out absent name files h = cc
removed_out (not_removed e) name files h = cc
removed_out (not_synced e) name files h = cc

-- how a Create of a taken name is refused, by the error of os.OpenFile where it has another one
abbrev pub blocked : Option LogError → ManagerError
blocked none = queue_exists
blocked (some e) = as_exists (storage_failed e)

-- A Create of a name that is not in the registry but in the data directory
create-behind :
    (name : String) (again : CreateEnv) (ordering : Ordering) (r : Manager) (file : LogFile)
    (o : Option LogError)
    → name_ok name ≡ true
    → find name r.queues ≡ none
    → find name r.files ≡ some file
    → again.open_error ≡ o
    → create again name ordering r ≡ (err (blocked o), r)
create-behind name again ordering r file none good gone there opens =
    create-blocked again name ordering r good gone file there opens
create-behind name again ordering r file (some e) good gone there refused =
    create-refused again name ordering r good gone e refused

delete-missing :
    (name : String) (env : DeleteEnv) (m : Manager)
    → find name m.queues ≡ none
    → delete_queue env name m ≡ (some queue_not_found, m)
unfolding delete_queue
delete-missing name env m e = simp (e, delete_queue)

module _ (env : DeleteEnv) (name : String) (m : Manager) where
  delete_queue-found :
      (q : Queue)
      → find name m.queues ≡ some q
      → delete_queue env name m ≡ delete_found env name q m
  unfolding delete_queue
  delete_queue-found q e = simp (e, delete_queue)

  queues-delete_found : (q : Queue) → find name (delete_found env name q m).1.queues ≡ none
  unfolding delete_found
  queues-delete_found q =
      let same : (delete_found env name q m).1.queues ≡ drop_key name m.queues = ground arith in
      rw same (find-drop_key_self name m.queues)

  queues-delete_queue : find name (delete_queue env name m).1.queues ≡ none
  queues-delete_queue = elim (Option-cases (find name m.queues)) [
    | inl e ↦ rw (delete-missing name env m e) e
    | inr (q, e) ↦ rw (delete_queue-found q e) (queues-delete_found q)
  ]

  files-delete_found :
      (q : Queue)
      → (delete_found env name q m).0 ≡ none
      → find name (delete_found env name q m).1.files ≡ none
  unfolding delete_found close_queue
  files-delete_found q h =
      let files = (closed_out env name q m).files in
      let ends : (remove_log env.remove_end name files).0 ≡ none = ground arith in
      let same : (delete_found env name q m).1.files ≡ (remove_log env.remove_end name files).1 =
        ground arith in
      rw same (removed_out env.remove_end name files ends)

  files-delete_queue :
      (delete_queue env name m).0 ≡ none → find name (delete_queue env name m).1.files ≡ none
  files-delete_queue h = elim (Option-cases (find name m.queues)) [
    | inl e ↦ absurd (cc (delete-missing name env m e, h))
    | inr (q, e) ↦
        rw (delete_queue-found q e)
          (files-delete_found q (ap (λ x. x.0) (sym (delete_queue-found q e)) ∙ h))
  ]

  -- Once Delete has returned nil, Get does not find the queue, and a Create of the name whose storage
  -- calls succeed gives a new queue with an empty history, whatever Delete found in the old one.
  pub deleted_name_is_free :
      (again : CreateEnv) (ordering : Ordering)
      → name_ok name ≡ true
      → (delete_queue env name m).0 ≡ none
      → again.open_error ≡ none
      → again.create_error ≡ none
      → (get name (delete_queue env name m).1 ≡ err queue_not_found)
        × ((create again name ordering (delete_queue env name m).1).0
            ≡ ok (
                new_queue
                  (config_for again name ordering)
                  (header (header_of (config_for again name ordering)) ∷ [])
                  1
                  0
                  0
                  (delete_queue env name m).1.compact_threshold))
  deleted_name_is_free again ordering good done opens fine =
      let gone = queues-delete_queue in
      (
        get-missing name (delete_queue env name m).1 gone,
        ap (λ x. x.0)
            (create-fresh again name ordering (delete_queue env name m).1 good gone
              (files-delete_queue done) opens fine),
      )

  -- Where Delete finds an open queue and closing its log fails, Delete returns that error. Behind it
  -- Get does not find the queue, another Delete finds none either and changes nothing, and a Create of
  -- its name never succeeds and changes nothing: it is refused as existing, or with the other error
  -- that os.OpenFile has. The log is still there, as closing it has left it.
  pub failed_delete_blocks :
      (again : CreateEnv) (env' : DeleteEnv) (ordering : Ordering) (q : Queue) (e : LogError)
      → name_ok name ≡ true
      → find name m.queues ≡ some q
      → q.closed ≡ false
      → env.close_error ≡ some e
      → ((delete_queue env name m).0 ≡ some (storage_failed e))
        × (get name (delete_queue env name m).1 ≡ err queue_not_found)
        × (delete_queue env' name (delete_queue env name m).1
            ≡ (some queue_not_found, (delete_queue env name m).1))
        × (create again name ordering (delete_queue env name m).1
            ≡ (err (blocked again.open_error), (delete_queue env name m).1))
        × (find name (delete_queue env name m).1.files ≡ some (env.left (close env.call q).log))
  failed_delete_blocks again env' ordering q e good found open_ fails =
      let gone = queues-delete_queue in
      (
        ap (λ x. x.0) ended,
        get-missing name (delete_queue env name m).1 gone,
        delete-missing name env' (delete_queue env name m).1 gone,
        create-behind name again ordering (delete_queue env name m).1
            (env.left (close env.call q).log) again.open_error good gone kept refl,
        kept,
      )
    where
      ended : delete_queue env name m ≡ (some (storage_failed e), closed_out env name q m)
      ended =
          delete_queue-found q found
          ∙ (unfold delete_found in simp (close_queue-failing env q e open_ fails, delete_found))

      kept : find name (delete_queue env name m).1.files ≡ some (env.left (close env.call q).log)
      kept = rw ended (find-put_self name (env.left (close env.call q).log) m.files)

pub get-found :
    (name : String) (m : Manager) (q : Queue) → get name m ≡ ok q → find name m.queues ≡ some q
unfolding get
get-found name m q h = elim (Option-cases (find name m.queues)) [
  | inl e ↦ absurd (cc (h, e))
  | inr (r, e) ↦ cc (h, e)
]

-- a Create that returns an error leaves the queues as they were
pub create-error :
    (env : CreateEnv) (name : String) (ordering : Ordering) (m : Manager) (e : ManagerError)
    → (create env name ordering m).0 ≡ err e
    → (create env name ordering m).1.queues ≡ m.queues
unfolding create
create-error env name ordering m e h = ground arith
