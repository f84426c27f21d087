-- ===== src/Rpc/Buffer/New.antt =====
-- `rpc_buffer_new` copies the bytes that are received and puts a 0 behind them.
use livezure.Prelude.{
  ℕ, suc, ◌+◌, ◌≡◌, refl, ap, ◌∙◌, sym, List, [], ◌∷◌, ◌++◌, length, drop, take, arith, ok, Run,
  append_assoc, patch, take-patch, length-patch, take-append-drop, take-all,
}
use livezure.Rpc.Buffer.{Buffer, given, new, new_sized}

pub record Copies (bytes : List ℕ) (out : Run Buffer) : Type 0 where
  pub after : Buffer
  pub behind : List ℕ
  pub returns : out ≡ ok after
  pub holds : after.chunk ≡ bytes ++ (0 ∷ behind)
  pub used : after.chunk_used ≡ length bytes
  pub at_start : after.parse_position ≡ 0

module _ (malloc : ℕ → List ℕ) (malloc_length : (n : ℕ) → length (malloc n) ≡ n) where
  -- A copy of received bytes, not none, holds them with a 0 behind, and is read from its start.
  pub new-Copies :
      (bytes : List ℕ) (n : ℕ)
      → length bytes ≡ suc n
      → Copies bytes (new malloc bytes (given (suc n)))
  unfolding new new_sized
  new-Copies bytes n e =
      let size = suc n + 1 + 64 in
      let first = patch (malloc size) 0 bytes in
      let chunk = patch first (suc n) (0 ∷ []) in
      let whole : take (suc n) bytes ≡ bytes = take-all (suc n) bytes (omega arith) in
      let l1 = length-patch (malloc size) 0 bytes in
      let l2 = malloc_length size in
      let copied : take (suc n) first ≡ bytes =
        take-patch (malloc size) 0 bytes (suc n) (omega arith) (omega arith) in
      let ended : take (suc n + 1) chunk ≡ bytes ++ (0 ∷ []) =
        take-patch first (suc n) (0 ∷ []) (suc n + 1) (omega arith) (omega arith)
        ∙ ap (λ t. t ++ (0 ∷ [])) copied in
      record {
        after = record { chunk = chunk; chunk_size = size; chunk_used = suc n; parse_position = 0 };
        behind = drop (suc n + 1) chunk;
        returns = rw whole (ground (arith, l1, l2));
        holds =
            sym (take-append-drop (suc n + 1) chunk)
            ∙ ap (λ t. t ++ drop (suc n + 1) chunk) ended
            ∙ append_assoc bytes (0 ∷ []) (drop (suc n + 1) chunk);
        used = sym e;
        at_start = refl;
      }
