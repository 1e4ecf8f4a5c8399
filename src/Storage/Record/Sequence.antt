-- ===== src/Storage/Record/Sequence.antt =====
-- The bytes of consecutive frames.
use queuemaxxing.Base.{ℕ, ◌≡◌, List, [], ◌∷◌, ◌++◌, append-nil, append_assoc}
use queuemaxxing.Storage.Record.{Codec, Record, encode_frame, frame}

module _ (codec : Codec) where
  -- `bytes` are the frames of the records, one after the other
  pub data Framed : List Record → List ℕ → Type 0 where
    no_frames : Framed [] []
    next_frame :
        {r : Record} {rs : List Record} {f bytes : List ℕ}
        → encode_frame codec r ≡ frame f
        → Framed rs bytes
        → Framed (r ∷ rs) (f ++ bytes)

  pub Framed-append :
      {rs ss : List Record} {a b : List ℕ} → Framed rs a → Framed ss b → Framed (rs ++ ss) (a ++ b)
  Framed-append no_frames q = q
  Framed-append {b = b} (next_frame {f = f} {bytes = c} e p) q =
      rw (append_assoc f c b) (next_frame e (Framed-append p q))

  pub Framed-concat :
      {rs : List Record} (r : Record) {a f : List ℕ}
      → Framed rs a
      → encode_frame codec r ≡ frame f
      → Framed (rs ++ r ∷ []) (a ++ f)
  Framed-concat r {f = f} p e = rw (append-nil f) at (Framed-append p (next_frame e no_frames))
