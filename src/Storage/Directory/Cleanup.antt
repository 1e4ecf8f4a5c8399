-- ===== src/Storage/Directory/Cleanup.antt =====
-- Logs and temporaries under CleanTemps of internal/storage/log.go.
use queuemaxxing.Base.{
  ℕ, ◌≡◌, refl, sym, ap, ◌∙◌, Bool, true, false, Bool-cases, inl, inr, none, List, [], ◌∷◌, arith,
}
use queuemaxxing.Storage.Directory.{
  Entry, log_ext, tmp_ext, same_text, has_suffix, is_log, is_temp, DirEnv, log_names, clean_loop,
  clean_temps,
}

abbrev last_or : List ℕ → ℕ → ℕ
last_or [] d = d
last_or (c ∷ cs) d = last_or cs c

same_text-eq : (cs ds : List ℕ) → same_text cs ds ≡ true → cs ≡ ds
unfolding same_text
same_text-eq [] [] h = refl
same_text-eq [] (d ∷ ds) h = cc
same_text-eq (c ∷ cs) [] h = cc
same_text-eq (c ∷ cs) (d ∷ ds) h =
    let head : c ≡ d = ground arith in
    let rest : same_text cs ds ≡ true = ground arith in
    let tail = same_text-eq cs ds rest in cc (head, tail)

last-suffix :
    (s : List ℕ) (x d : ℕ) (xs : List ℕ)
    → has_suffix s (x ∷ xs) ≡ true
    → last_or s d ≡ last_or (x ∷ xs) d
unfolding has_suffix same_text
last-suffix [] x d xs h = cc
last-suffix (c ∷ cs) x d xs h = elim (Bool-cases (same_text (c ∷ cs) (x ∷ xs))) [
  | inl e ↦ ap (λ s. last_or s d) (same_text-eq (c ∷ cs) (x ∷ xs) e)
  | inr e ↦ last-suffix cs x c xs (sym (rw e refl) ∙ h)
]

-- a log is no temporary
log-temp : (e : Entry) → is_log e ≡ true → is_temp e ≡ false
log-temp e h = elim (Bool-cases (has_suffix e.name tmp_ext)) [
  | inr other ↦ ground arith
  | inl ends ↦
      let is : has_suffix e.name log_ext ≡ true = ground arith in
      absurd (
        omega (
          arith,
          last-suffix e.name b'.' 0 (b'l' ∷ b'o' ∷ b'g' ∷ []) is,
          last-suffix e.name b'.' 0 (b'l' ∷ b'o' ∷ b'g' ∷ b'.' ∷ b't' ∷ b'm' ∷ b'p' ∷ []) ends,
        ))
]

-- none of the entries is a temporary
abbrev pub NoTemps : List Entry → Type 0
NoTemps [] = Unit {0}
NoTemps (e ∷ es) = (is_temp e ≡ false) × NoTemps es

log_names-left :
    (fails : List ℕ → Bool) (es : List Entry) → log_names (clean_loop fails es).left ≡ log_names es
unfolding log_names clean_loop
log_names-left fails [] = refl
log_names-left fails (e ∷ es) = elim (Bool-cases (is_temp e)) [
  | inr stays ↦ rw stays (ground (arith, log_names-left fails es))
  | inl temp ↦
      let no_log : is_log e ≡ false = ground (arith, log-temp e) in
      rw (temp, no_log) (ground (arith, log_names-left fails es))
]

left-NoTemps :
    (fails : List ℕ → Bool) (es : List Entry)
    → (clean_loop fails es).failed ≡ false
    → NoTemps (clean_loop fails es).left
unfolding clean_loop
left-NoTemps fails [] h = tt
left-NoTemps fails (e ∷ es) h = elim (Bool-cases (is_temp e)) [
  | inr stays ↦ rw stays (stays, left-NoTemps fails es (rw stays at h))
  | inl temp ↦ elim (Bool-cases (fails e.name)) [
    | inl bad ↦ absurd (cc (rw (temp, bad) at h))
    | inr gone ↦ rw (temp, gone) (left-NoTemps fails es (rw (temp, gone) at h))
  ]
]

-- Whatever fails, CleanTemps removes no log, so that ListLogs gives the same names behind it as
-- before; and where it returns nil, no compaction temporary is left.
pub clean_temps-keeps_logs :
    (env : DirEnv) (es : List Entry)
    → (log_names (clean_temps env es).1 ≡ log_names es)
      × ((clean_temps env es).0 ≡ none → NoTemps (clean_temps env es).1)
unfolding clean_temps
clean_temps-keeps_logs env es = elim (Bool-cases env.read_fails) [
  | inl e ↦ simp e (refl, λ h. cc)
  | inr e ↦ elim (Bool-cases (clean_loop env.remove_fails es).failed) [
    | inl f ↦ simp (e, f) (log_names-left env.remove_fails es, λ h. cc)
    | inr f ↦
        simp (e, f) (log_names-left env.remove_fails es, λ h. left-NoTemps env.remove_fails es f)
  ]
]
