-- ===== src/Storage/Directory.antt =====
-- EnsureDir, Remove, ListLogs and CleanTemps of internal/storage/log.go, on the entries of the data
-- directory. A name is its list of bytes.
pub mod Cleanup
use queuemaxxing.Base.{
  ℕ, ◌-◌, ◌≡◌, refl, sym, ap, ◌∙◌, Bool, true, false, not, ◌&&◌, ◌||◌, Bool-cases, inl, inr, Option,
  none, some, List, [], ◌∷◌, ◌++◌, length, take, ◌==◌, Result, ok, err, if◌then◌else◌, arith,
}

pub record Entry : Type 0 where
  pub name : List ℕ
  pub is_dir : Bool

abbrev pub log_ext : List ℕ
log_ext = b'.' ∷ b'l' ∷ b'o' ∷ b'g' ∷ []

abbrev pub tmp_ext : List ℕ
tmp_ext = b'.' ∷ b'l' ∷ b'o' ∷ b'g' ∷ b'.' ∷ b't' ∷ b'm' ∷ b'p' ∷ []

unfoldable pub same_text : List ℕ → List ℕ → Bool
same_text [] [] = true
same_text [] (d ∷ ds) = false
same_text (c ∷ cs) [] = false
same_text (c ∷ cs) (d ∷ ds) = c == d && same_text cs ds

-- strings.HasSuffix
unfoldable pub has_suffix : List ℕ → List ℕ → Bool
unfolding same_text
has_suffix [] suffix = same_text [] suffix
has_suffix (c ∷ cs) suffix = same_text (c ∷ cs) suffix || has_suffix cs suffix

-- strings.TrimSuffix of a suffix that is there
abbrev pub trim_suffix : List ℕ → List ℕ → List ℕ
trim_suffix s suffix = take (length s - length suffix) s

abbrev pub is_log : Entry → Bool
is_log e = not (e.is_dir || not (has_suffix e.name log_ext))

abbrev pub is_temp : Entry → Bool
is_temp e = not (e.is_dir || not (has_suffix e.name tmp_ext))

-- How the calls of one operation end, that of os.Remove by name.
pub record DirEnv : Type 0 where
  pub make_fails : Bool
  pub read_fails : Bool
  pub remove_fails : List ℕ → Bool
  pub sync_fails : Bool

-- os.ErrNotExist, and the other errors of the operating system
pub data DirError : Type 0 where
  not_exist dir_failed : DirError

-- syncDir
abbrev pub sync_dir : DirEnv → Option DirError
sync_dir env = if env.sync_fails then some dir_failed else none

-- EnsureDir; where the directory was missing, it is now there, and empty
unfoldable pub ensure_dir : DirEnv → Option (List Entry) → Option DirError × Option (List Entry)
ensure_dir env d =
    if env.make_fails
    then (some dir_failed, d)
    else (sync_dir env, some (elim d as (λ _. List Entry) [ none ↦ [] | some es ↦ es ]))

-- the names of ListLogs, in the order of os.ReadDir
unfoldable pub log_names : List Entry → List (List ℕ)
unfolding has_suffix
log_names [] = []
log_names (e ∷ es) =
    let rest = log_names es in if is_log e then trim_suffix e.name log_ext ∷ rest else rest

-- ListLogs
unfoldable pub list_logs : DirEnv → List Entry → Result DirError (List (List ℕ))
unfolding log_names
list_logs env es = if env.read_fails then err dir_failed else ok (log_names es)

-- How the loop of CleanTemps ends: whether a removal failed, whether one was made, and what is left.
pub record Cleaned : Type 0 where
  pub failed : Bool
  pub removed : Bool
  pub left : List Entry

unfoldable pub clean_loop : (List ℕ → Bool) → List Entry → Cleaned
unfolding has_suffix
clean_loop fails [] = record { failed = false; removed = false; left = [] }
clean_loop fails (e ∷ es) =
    let rest = clean_loop fails es in
    if not (is_temp e)
    then record rest { left = e ∷ rest.left }
    else if fails e.name
    then record { failed = true; removed = false; left = e ∷ es }
    else record rest { removed = true }

-- CleanTemps
unfoldable pub clean_temps : DirEnv → List Entry → Option DirError × List Entry
unfolding clean_loop
clean_temps env es =
    let c = clean_loop env.remove_fails es in
    if env.read_fails
    then (some dir_failed, es)
    else if c.failed
    then (some dir_failed, c.left)
    else (if c.removed then sync_dir env else none, c.left)

-- os.Remove of the entry of that name
unfoldable pub remove_entry : List ℕ → List Entry → Option (List Entry)
unfolding same_text
remove_entry name [] = none
remove_entry name (e ∷ es) =
    let rest = remove_entry name es in
    if same_text e.name name
    then some es
    else elim rest as (λ _. Option (List Entry)) [ none ↦ none | some left ↦ some (e ∷ left) ]

-- Remove
unfoldable pub remove : DirEnv → List ℕ → List Entry → Option DirError × List Entry
unfolding remove_entry
remove env name es =
    if env.remove_fails (name ++ log_ext)
    then (some dir_failed, es)
    else elim (remove_entry (name ++ log_ext) es) as (λ _. Option DirError × List Entry) [
      | none ↦ (some not_exist, es)
      | some left ↦ (sync_dir env, left)
    ]
