-- ===== src/Rpc/Parser/Pack.antt =====
-- The body of a request: one `rpc_keypair_append` after the other, each of two texts whose sizes are
-- left to `strlen`; and which bodies overrun the buffer.
use livezure.Prelude.{
  ℕ, ◌+◌, ◌-◌, ◌≡◌, ◌≢◌, refl, ap, ◌∙◌, sym, ltb, leb, if◌then◌else◌, Bool, true, false, Bool-cases,
  inl, inr, List, [], ◌∷◌, ◌++◌, length, arith, Option, none, some, Run, ok, fault, out_of_range,
  ◌>>=◌, append_assoc, append-nil, take-append, int_bytes, length-append, length-take, strlen,
}
use livezure.Rpc.Buffer
use livezure.Rpc.Buffer.{Buffer, negative, given, size_or_strlen}
use livezure.Rpc.Buffer.Append.{IsValid, payload, Fits, append_overruns}
use livezure.Rpc.Keypair
use livezure.Rpc.Parser.Stream.{Pair, IsClean, body, size, length-body, stream}
use livezure.Rpc.Parser.Build.{
  Stands, append_pair-Holds, append_first_pair-Holds, stream-append, append_body, sized_body,
}

-- `rpc_keypair_append` of each pair in turn.
unfoldable pub pack : (ℕ → List ℕ) → Option Buffer → List Pair → Run (Option Buffer)
pack malloc b [] = ok b
pack malloc b (p ∷ ps) = do
  b' ← Keypair.append malloc b (p.key ++ (0 ∷ [])) (p.value ++ (0 ∷ [])) negative
  pack malloc (some b') ps

-- A text holds no 0.
abbrev pub IsText : List ℕ → Type 0
IsText [] = Unit
IsText (x ∷ xs) = (x ≢ 0) × IsText xs

abbrev pub AllTexts : List Pair → Type 0
AllTexts [] = Unit
AllTexts (p ∷ ps) = IsClean p.key × IsText p.value × AllTexts ps

-- Whether the entries stay inside a buffer with so many bytes free: an entry that does not fit even
-- without its size makes a larger buffer, with 60 bytes free behind it.
unfoldable pub all_fit : ℕ → List Pair → Bool
all_fit free [] = true
all_fit free (p ∷ ps) =
    let grown = all_fit 60 ps in
    let same = all_fit (free - 4 - size p) ps in
    if ltb free (size p) then grown else (if leb (size p + 4) free then same else false)

-- What becomes of a body whose entries all fit, or not.
abbrev pub Packs : Bool → List ℕ → Run (Option Buffer) → Type 0
Packs true body out =
    (after : Buffer) × (out ≡ ok (some after)) × IsValid after × (payload after ≡ body)
Packs false body out = out ≡ fault out_of_range

strlen-text : (text : List ℕ) → IsText text → strlen (text ++ (0 ∷ [])) ≡ ok (length text)
unfolding strlen
strlen-text [] c = refl
strlen-text (x ∷ xs) c = ground (arith, strlen-text xs c.1)

pair-Stands :
    (p : Pair)
    → IsClean p.key
    → IsText p.value
    → Stands p (p.key ++ (0 ∷ [])) (p.value ++ (0 ∷ [])) negative
unfolding size_or_strlen
pair-Stands p c t = record {
  behind = [];
  text = refl;
  clean = c;
  sized = strlen-text p.value t;
  starts = take-append p.value (0 ∷ []) (length p.value) refl;
  long = omega (arith, length-append p.value (0 ∷ []));
}

Packs-eq :
    {x y : Bool} {s t : List ℕ} {out out' : Run (Option Buffer)}
    → x ≡ y
    → s ≡ t
    → out ≡ out'
    → Packs x s out
    → Packs y t out'
Packs-eq e f g h = rw (← e, ← f, ← g) h

over_lem :
    (b : Buffer) (n : ℕ)
    → IsValid b
    → Fits b n
    → ltb (b.chunk_size - b.chunk_used) n ≡ false
    → leb (n + 4) (b.chunk_size - b.chunk_used) ≡ false
    → ⊥
over_lem b n v (inl more) h k = ground arith
over_lem b n v (inr fits) h k = ground arith

length-stream_snoc :
    (b : Buffer) (ps : List Pair) (q : Pair)
    → IsValid b
    → payload b ≡ stream ps
    → length (stream (ps ++ (q ∷ []))) ≡ b.chunk_used + 4 + size q
length-stream_snoc b ps q v held = omega (
  arith,
  v.used_in,
  v.allocated,
  ap length held,
  ap length (stream-append ps q),
  length-append (stream ps) (int_bytes (size q) ++ body q),
  length-append (int_bytes (size q)) (body q),
  length-body q,
  length-take b.chunk_used b.chunk,
)

module _ (malloc : ℕ → List ℕ) (malloc_length : (n : ℕ) → length (malloc n) ≡ n) where
  pack_over :
      (b : Buffer) (q : Pair) (qs : List Pair)
      → IsValid b
      → IsClean q.key
      → IsText q.value
      → ¬ Fits b (size q)
      → pack malloc (some b) (q ∷ qs) ≡ fault out_of_range
  unfolding pack
  pack_over b q qs v c t over =
      rw
        (append_body malloc malloc_length (some b) q (q.key ++ (0 ∷ [])) (q.value ++ (0 ∷ []))
          negative (pair-Stands q c t))
        (rw
          (append_overruns malloc malloc_length (body q) (given (size q)) (size q) v
            (sized_body malloc malloc_length q) over (omega (arith, length-body q)))
          refl)

  pack_behind :
      (b : Buffer) (ps qs : List Pair)
      → IsValid b
      → payload b ≡ stream ps
      → AllTexts qs
      → Packs
          (all_fit (b.chunk_size - b.chunk_used) qs)
          (stream (ps ++ qs))
          (pack malloc (some b) qs)
  unfolding all_fit pack
  pack_behind b ps [] v held t = (b, refl, v, held ∙ ap stream (sym (append-nil ps)))
  pack_behind b ps (q ∷ qs) v held t =
      let free = b.chunk_size - b.chunk_used in
      let stands = pair-Stands q t.0 t.1 in
      let n = length-stream_snoc b ps q v held in
      let whole : stream ((ps ++ (q ∷ [])) ++ qs) ≡ stream (ps ++ (q ∷ qs)) =
        ap stream (append_assoc ps (q ∷ []) qs) in
      elim (Bool-cases (ltb free (size q))) [
        | inl more ↦
            (let h =
                append_pair-Holds malloc malloc_length ps q (q.key ++ (0 ∷ []))
                  (q.value ++ (0 ∷ [])) negative v held stands (inl (ground arith)) in
              let ih = pack_behind h.after (ps ++ (q ∷ [])) qs h.valid h.streams t.2 in
              rw more (
                Packs-eq (ap (λ k. all_fit k qs) (ground (arith, h.room, h.used))) whole
                  (ap (λ r. r >>= λ b'. pack malloc (some b') qs) (sym h.returns)) ih))
        | inr less ↦ elim (Bool-cases (leb (size q + 4) free)) [
          | inl fits ↦
              (let h =
                  append_pair-Holds malloc malloc_length ps q (q.key ++ (0 ∷ []))
                    (q.value ++ (0 ∷ [])) negative v held stands (inr (ground arith)) in
                let ih = pack_behind h.after (ps ++ (q ∷ [])) qs h.valid h.streams t.2 in
                rw (less, fits)
                  (Packs-eq (ap (λ k. all_fit k qs) (ground (arith, h.room, h.used))) whole
                    (ap (λ r. r >>= λ b'. pack malloc (some b') qs) (sym h.returns)) ih))
          | inr over ↦
              rw (less, over)
                (pack_over b q qs v t.0 t.1 (λ fits. over_lem b (size q) v fits less over))
        ]
      ]

  -- The body of a request, of one pair at least, the keys clean and the values without 0: where
  -- every entry behind the first fits with its size, or is too long even without its size, the
  -- calls build the stream of the pairs in a valid buffer; and otherwise they write past its end.
  pub pack_lem :
      (p : Pair) (ps : List Pair)
      → AllTexts (p ∷ ps)
      → Packs (all_fit 60 ps) (stream (p ∷ ps)) (pack malloc none (p ∷ ps))
  unfolding pack Buffer.empty
  pack_lem p ps t =
      let h =
        append_first_pair-Holds malloc malloc_length p (p.key ++ (0 ∷ [])) (p.value ++ (0 ∷ []))
          negative (pair-Stands p t.0 t.1) in
      let n =
        length-stream_snoc (Buffer.empty malloc 0) [] p
          (unfold Buffer.empty in
            record { allocated = omega (arith, malloc_length 64); used_in = omega arith })
          refl in
      Packs-eq (ap (λ k. all_fit k ps) (ground (arith, h.room, h.used))) refl
        (ap (λ r. r >>= λ b'. pack malloc (some b') ps) (sym h.returns))
        (pack_behind h.after (p ∷ []) ps h.valid h.streams t.2)
