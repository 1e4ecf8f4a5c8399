-- ===== src/Queue/Manager/Registry.antt =====
-- What holds of the registry of internal/queue/manager.go from NewManager on.
use text.Mathlib.Text.{◌==◌ as str_eq}
use text.Mathlib.TextEquality.{eq_iff}
use queuemaxxing.Base.{
  ℕ, ◌≡◌, refl, sym, ◌∙◌, String, true, false, Bool-cases, Option-cases, inl, inr, Option, none,
  some, List, [], ◌∷◌, Result, ok, err, arith, find, find-nil, put, drop_key, find-put,
  find-drop_key,
}
use queuemaxxing.Storage.Record.{Record, header}
use queuemaxxing.Queue.Clock.{Time}
use queuemaxxing.Queue.Message.{Ordering}
use queuemaxxing.Queue.Engine.State.{CallEnv, Queue}
use queuemaxxing.Queue.Engine.Calls.{Call, perform}
use queuemaxxing.Queue.Replay.{Config, ReplayError, new_queue, open_queue}
use queuemaxxing.Queue.Places.{IsValid}
use queuemaxxing.Queue.Places.Calls.{IsFresh, perform-Performed}
use queuemaxxing.Queue.Places.Reach.{new_queue-IsValid, open_queue-IsValid, performed-IsValid}
use queuemaxxing.Queue.Manager.{
  LogFile, whole, incomplete, damaged, Files, Queues, Manager, ManagerError, bad_name, queue_exists,
  queue_not_found, storage_failed, replay_failed, log_incomplete, log_damaged, name_ok, header_of,
  config_for, created, CreateEnv, create_queue, create, DeleteEnv, delete_found, delete_queue,
}
use queuemaxxing.Queue.Manager.Identity.{perform-Alike, open_queue-named}
use queuemaxxing.Queue.Manager.Startup.{
  StartEnv, replayed, open_file, with_queue, start_one, start_all, new_registry, new_manager,
}

-- A queue in the registry under `name`: it has that name, which is valid, is open, and its messages,
-- heaps and receipts are in order.
pub record IsListed (name : String) (q : Queue) : Type 0 where
  pub named : q.name ≡ name
  pub valid_name : name_ok name ≡ true
  pub open_ : q.closed ≡ false
  pub valid : IsValid q

abbrev pub IsRegistry : Manager → Type 0
IsRegistry m = (name : String) (q : Queue) → find name m.queues ≡ some q → IsListed name q

pub put-IsRegistry :
    (queues : Queues) (name : String) (q : Queue)
    → IsListed name q
    → ((k : String) (r : Queue) → find k queues ≡ some r → IsListed k r)
    → (k : String) (r : Queue) → find k (put name q queues) ≡ some r
    → IsListed k r
put-IsRegistry queues name q listed all k r h = elim (Bool-cases (str_eq name k)) [
  | inl e ↦
      let same : name ≡ k = (eq_iff name k).0 e in
      let is : q ≡ r = cc (find-put name k q queues, h, e) in rw (same, is) at listed
  | inr e ↦ all k r (sym (find-put name k q queues ∙ rw e refl) ∙ h)
]

drop_key-IsRegistry :
    (queues : Queues) (name : String)
    → ((k : String) (r : Queue) → find k queues ≡ some r → IsListed k r)
    → (k : String) (r : Queue) → find k (drop_key name queues) ≡ some r
    → IsListed k r
drop_key-IsRegistry queues name all k r h = elim (Bool-cases (str_eq name k)) [
  | inl e ↦ absurd (cc (find-drop_key name k queues, h, e))
  | inr e ↦ all k r (sym (find-drop_key name k queues ∙ rw e refl) ∙ h)
]

create_queue-ok :
    (env : CreateEnv) (cfg : Config) (threshold : ℕ) (files : Files) (q : Queue)
    → (create_queue env cfg threshold files).0 ≡ ok q
    → q ≡ new_queue cfg (header (header_of cfg) ∷ []) 1 0 0 threshold
unfolding create_queue
create_queue-ok env cfg threshold files q h = ground arith

module _ (m : Manager) (v : IsRegistry m) where
  created-IsRegistry :
      (name : String) (x : Result ManagerError Queue × Files)
      → ((q : Queue) → x.0 ≡ ok q → IsListed name q)
      → IsRegistry (created m name x).1
  created-IsRegistry name (err e, files) f = v
  created-IsRegistry name (ok q, files) f = put-IsRegistry m.queues name q (f q refl) v

  new_queue-IsListed :
      (env : CreateEnv) (name : String) (ordering : Ordering) (records : List Record) (t : ℕ)
      → name_ok name ≡ true
      → IsListed name (new_queue (config_for env name ordering) records 1 0 0 t)
  new_queue-IsListed env name ordering records t ok_name = record {
    named = refl;
    valid_name = ok_name;
    open_ = refl;
    valid = new_queue-IsValid (config_for env name ordering) records 1 0 0 t;
  }

  pub create-IsRegistry :
      (env : CreateEnv) (name : String) (ordering : Ordering)
      → IsRegistry (create env name ordering m).1
  unfolding create
  create-IsRegistry env name ordering = elim (Bool-cases (name_ok name)) [
    | inr bad ↦ rw bad v
    | inl good ↦ rw good (looked_up good (find name m.queues))
  ]
    where
      cfg : Config
      cfg = config_for env name ordering

      looked_up :
          name_ok name ≡ true
          → (o : Option Queue)
          → IsRegistry
              (elim o as (λ _. Result ManagerError Queue × Manager) [
                | some _ ↦ (err queue_exists, m)
                | none ↦ created m name (create_queue env cfg m.compact_threshold m.files)
              ]).1
      looked_up good (some _) = v
      looked_up good none =
          created-IsRegistry name (create_queue env cfg m.compact_threshold m.files) (λ q h.
            rw (create_queue-ok env cfg m.compact_threshold m.files q h) (
              new_queue-IsListed env name ordering (header (header_of cfg) ∷ []) m.compact_threshold
                good))

  queues-delete_found :
      (env : DeleteEnv) (name : String) (q : Queue)
      → (delete_found env name q m).1.queues ≡ drop_key name m.queues
  unfolding delete_found
  queues-delete_found env name q = ground arith

  pub delete_queue-IsRegistry :
      (env : DeleteEnv) (name : String) → IsRegistry (delete_queue env name m).1
  unfolding delete_queue
  delete_queue-IsRegistry env name = looked_up (find name m.queues)
    where
      looked_up :
          (o : Option Queue)
          → IsRegistry
              (elim o as (λ _. Option ManagerError × Manager) [
                | none ↦ (some queue_not_found, m)
                | some q ↦ delete_found env name q m
              ]).1
      looked_up none = v
      looked_up (some q) = rw (queues-delete_found env name q) (drop_key-IsRegistry m.queues name v)

  -- a call on a queue of the registry
  pub call-IsRegistry :
      (name : String) (env : CallEnv) (c : Call) (q : Queue)
      → find name m.queues ≡ some q
      → IsFresh env q
      → IsRegistry (with_queue m name (perform env c q).1)
  call-IsRegistry name env c q found fresh =
      let listed = v name q found in
      let alike = perform-Alike env c q in
      put-IsRegistry m.queues name (perform env c q).1
        (record {
          named = alike.0 ∙ listed.named;
          valid_name = listed.valid_name;
          open_ = alike.1 ∙ listed.open_;
          valid =
              performed-IsValid c q (perform env c q) listed.valid
                (perform-Performed env c q listed.valid fresh);
        })
        v

replayed-ok : (r : Result ReplayError Queue) (q : Queue) → replayed r ≡ ok q → r ≡ ok q
replayed-ok (ok r) q h = cc
replayed-ok (err e) q h = cc

open_file-IsListed :
    (now : Time) (threshold : ℕ) (name : String) (file : LogFile) (q : Queue)
    → name_ok name ≡ true
    → open_file now threshold name file ≡ ok q
    → IsListed name q
unfolding open_file
open_file-IsListed now threshold name incomplete q good h = cc
open_file-IsListed now threshold name damaged q good h = cc
open_file-IsListed now threshold name (whole records) q good h =
    let opened = replayed-ok (open_queue name now threshold records) q h in
    let same = open_queue-named name now threshold records q opened in
    record {
      named = same.0;
      valid_name = good;
      open_ = same.1;
      valid = open_queue-IsValid name now threshold records q opened;
    }

module _ (env : StartEnv) where
  start_one-IsRegistry :
      (name : String) (r : Result ManagerError Queue) (m : Manager)
      → IsRegistry m
      → ((q : Queue) → r ≡ ok q → IsListed name q)
      → (start_one env name r m).0 ≡ none
      → IsRegistry (start_one env name r m).1
  start_one-IsRegistry name (ok q) m v f h = put-IsRegistry m.queues name q (f q refl) v
  start_one-IsRegistry name (err log_incomplete) m v f h =
      let same : (start_one env name (err log_incomplete) m).1.queues ≡ m.queues = ground arith in
      rw same v
  start_one-IsRegistry name (err bad_name) m v f h = cc
  start_one-IsRegistry name (err queue_exists) m v f h = cc
  start_one-IsRegistry name (err queue_not_found) m v f h = cc
  start_one-IsRegistry name (err (storage_failed e)) m v f h = cc
  start_one-IsRegistry name (err (replay_failed e)) m v f h = cc
  start_one-IsRegistry name (err log_damaged) m v f h = cc

  start_all-IsRegistry :
      (files : Files) (m m' : Manager)
      → IsRegistry m
      → start_all env files m ≡ (none, m')
      → IsRegistry m'
  unfolding start_all
  start_all-IsRegistry [] m m' v h = let e : m ≡ m' = cc in rw e at v
  start_all-IsRegistry ((name, file) ∷ files) m m' v h = elim (Bool-cases (name_ok name)) [
    | inr bad ↦ start_all-IsRegistry files m m' v (rw bad at h)
    | inl good ↦
        let r = open_file env.now m.compact_threshold name file in
        elim (Option-cases (start_one env name r m).0) [
          | inr (e, failed) ↦ absurd (cc (h, good, failed))
          | inl fine ↦
              start_all-IsRegistry files (start_one env name r m).1 m'
                (start_one-IsRegistry name r m v
                  (λ q. open_file-IsListed env.now m.compact_threshold name file q good) fine)
                (rw (good, fine) at h)
        ]
  ]

  pub new_manager-IsRegistry :
      (threshold : ℕ) (files : Files) (m : Manager)
      → new_manager env threshold files ≡ (none, m)
      → IsRegistry m
  unfolding new_manager
  new_manager-IsRegistry threshold files m h = elim (Option-cases env.ensure_error) [
    | inr (e, failed) ↦ absurd (cc (h, failed))
    | inl a ↦ elim (Option-cases env.clean_error) [
      | inr (e, failed) ↦ absurd (cc (h, a, failed))
      | inl b ↦ elim (Option-cases env.list_error) [
        | inr (e, failed) ↦ absurd (cc (h, a, b, failed))
        | inl c ↦
            start_all-IsRegistry files (new_registry threshold files) m
              (λ name q e. absurd (cc (find-nil name, e))) (rw (a, b, c) at h)
      ]
    ]
  ]
