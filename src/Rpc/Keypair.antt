-- ===== src/Rpc/Keypair.antt =====
-- rpc_keypair.c: entries of the form `key: value` in an rpc buffer.
use livezure.Prelude.{
  ℕ, ◌+◌, ◌-◌, ◌^◌, List, [], ◌∷◌, ◌++◌, drop, Option, none, some, Run, ok, ◌>>=◌, load, strlen,
  strstr, int,
}
use livezure.Rpc.Buffer
use livezure.Rpc.Buffer.{Buffer, Size, given, size_or_strlen}

abbrev pub divide : List ℕ
divide = b':' ∷ b' ' ∷ []

abbrev pub divide_len : ℕ
divide_len = 2

-- `key` and `body` are the memories behind the pointers.
unfoldable pub append : (ℕ → List ℕ) → Option Buffer → List ℕ → List ℕ → Size → Run Buffer
append malloc buffer key body bodysize = do
  keysize ← strlen key
  size ← size_or_strlen body bodysize
  keytext ← load key 0 keysize
  bodytext ← load body 0 size
  Buffer.append malloc buffer (keytext ++ (divide ++ bodytext))
      (given (keysize + divide_len + size))

-- The pointers `*key` and `*body` as offsets in the chunk, and `*bodysize`.
pub record Found : Type 0 where
  pub key : ℕ
  pub body : ℕ
  pub bodysize : ℕ

-- `*key`, `*body` and `*bodysize` from the entry and where the divide stands in it.
unfoldable pub found_at : ℕ → ℕ → Option ℕ → Option Found
found_at start streamsize none = none
found_at start streamsize (some off) = some (record {
  key = start;
  body = start + off + divide_len;
  bodysize = int (streamsize + 2 ^ 32 - off - divide_len);
})

-- `strstr` looks beyond the entry, up to the next 0 in the chunk.
unfoldable pub split_entry : Option (ℕ × ℕ) → Buffer → Run (Option Found × Buffer)
split_entry none b = ok (none, b)
split_entry (some (start, streamsize)) b = do
  querykey ← strstr (drop start b.chunk) divide
  ok (found_at start streamsize querykey, b)

unfoldable pub next : Buffer → Run (Option Found × Buffer)
next b = do (entry, b') ← Buffer.next b; split_entry entry b'
