-- ===== src/Rpc/Parser/Build.antt =====
-- `rpc_keypair_append` extends the stream of a request by a pair.
use livezure.Prelude.{
  ℕ, suc, zero, ◌≤◌, ◌<◌, ◌≡◌, refl, ap, ◌∙◌, sym, List, [], ◌∷◌, ◌++◌, length, take, arith, Option,
  none, some, ok, append_assoc, append-nil, take-all, strlen, length-append, take-append, int_bytes,
}
use livezure.Rpc.Buffer
use livezure.Rpc.Buffer.{Buffer, Size, given, size_or_strlen}
use livezure.Rpc.Buffer.Append.{IsValid, payload, Fits, Holds, append-Holds, append_first-Holds}
use livezure.Rpc.Keypair
use livezure.Rpc.Keypair.{divide}
use livezure.Rpc.Parser.Stream.{Pair, IsClean, body, size, length-body, stream}

strlen-clean : (key behind : List ℕ) → IsClean key → strlen (key ++ (0 ∷ behind)) ≡ ok (length key)
unfolding strlen
strlen-clean [] behind c = refl
strlen-clean (x ∷ xs) behind c = ground (arith, strlen-clean xs behind c.2)

pub stream-append :
    (ps : List Pair) (p : Pair)
    → stream (ps ++ (p ∷ [])) ≡ stream ps ++ (int_bytes (size p) ++ body p)
stream-append [] p = ap (λ t. int_bytes (size p) ++ t) (append-nil (body p))
stream-append (q ∷ ps) p =
    ap (λ t. int_bytes (size q) ++ (body q ++ t)) (stream-append ps p)
    ∙ ap (λ t. int_bytes (size q) ++ t)
        (sym (append_assoc (body q) (stream ps) (int_bytes (size p) ++ body p)))

-- The arguments that stand for a pair: the key as a text, the value with its size.
pub record Stands (p : Pair) (key value : List ℕ) (n : Size) : Type 0 where
  pub behind : List ℕ
  pub text : key ≡ p.key ++ (0 ∷ behind)
  pub clean : IsClean p.key
  pub sized : size_or_strlen value n ≡ ok (length p.value)
  pub starts : take (length p.value) value ≡ p.value
  pub long : length p.value ≤ length value

given_pos : (bytes : List ℕ) (n : ℕ) → 0 < n → size_or_strlen bytes (given n) ≡ ok n
unfolding size_or_strlen
given_pos bytes zero h = absurd (omega arith)
given_pos bytes (suc n) h = refl

module _ (malloc : ℕ → List ℕ) (malloc_length : (n : ℕ) → length (malloc n) ≡ n) where
  pub append_body :
      (buffer : Option Buffer) (p : Pair) (key value : List ℕ) (n : Size)
      → Stands p key value n
      → Keypair.append malloc buffer key value n
        ≡ Buffer.append malloc buffer (body p) (given (size p))
  unfolding Keypair.append body size
  append_body buffer p key value n s = ground (
    arith,
    s.text,
    s.sized,
    s.starts,
    s.long,
    strlen-clean p.key s.behind s.clean,
    take-append p.key (0 ∷ s.behind) (length p.key),
    length-append p.key (0 ∷ s.behind),
  )

  pub sized_body : (p : Pair) → size_or_strlen (body p) (given (size p)) ≡ ok (size p)
  unfolding size
  sized_body p = given_pos (body p) (size p) (omega arith)

  taken_body : (p : Pair) → take (size p) (body p) ≡ body p
  taken_body p = take-all (size p) (body p) (omega (arith, length-body p))

  -- `rpc_keypair_append` on a buffer that holds a stream of pairs puts the pair behind them, where
  -- the entry fits.
  pub append_pair-Holds :
      {b : Buffer} (ps : List Pair) (p : Pair) (key value : List ℕ) (n : Size)
      → IsValid b
      → payload b ≡ stream ps
      → Stands p key value n
      → Fits b (size p)
      → Holds b (stream (ps ++ (p ∷ []))) (Keypair.append malloc (some b) key value n)
  append_pair-Holds {b} ps p key value n v held s fits =
      rw (append_body (some b) p key value n s, stream-append, ← held)
        (rw (taken_body p) at (
          append-Holds malloc malloc_length (body p) (given (size p)) (size p) v (sized_body p) fits
            (omega (arith, length-body p))))

  -- The first pair makes the buffer.
  pub append_first_pair-Holds :
      (p : Pair) (key value : List ℕ) (n : Size)
      → Stands p key value n
      → Holds
          (Buffer.empty malloc (size p))
          (stream (p ∷ []))
          (Keypair.append malloc none key value n)
  append_first_pair-Holds p key value n s =
      rw (append_body none p key value n s, append-nil)
        (rw (taken_body p) at (
          append_first-Holds malloc malloc_length (body p) (given (size p)) (size p) (sized_body p)
            (omega (arith, length-body p))))
