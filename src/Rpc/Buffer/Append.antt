-- ===== src/Rpc/Buffer/Append.antt =====
-- What `rpc_buffer_append` puts into the stream, and when it writes past the end of the chunk.
use livezure.Prelude.{
  ℕ, ◌+◌, ◌-◌, ◌≤◌, length-append, ltb, if◌then◌else◌, ◌<◌, ◌≡◌, refl, ap, ◌∙◌, List, ◌++◌, length,
  take, arith, none, some, Run, ok, fault, out_of_range, patch, take-patch, length-patch,
  length-take, int_bytes, append_assoc, ◌⊎◌, inl, inr,
}
use native.Mathlib.Decide.{dec_lt}
use livezure.Rpc.Buffer.{
  Buffer, Size, def_grow_size, size_or_strlen, empty, enlarge, put_entry, append_sized, append,
}

pub record IsValid (b : Buffer) : Type 0 where
  pub allocated : length b.chunk ≡ b.chunk_size
  pub used_in : b.chunk_used ≤ b.chunk_size

-- The bytes of the stream.
abbrev pub payload : Buffer → List ℕ
payload b = take b.chunk_used b.chunk

-- Where the test of the code, which leaves out the four bytes of the size, comes out right.
abbrev pub Fits : Buffer → ℕ → Type 0
Fits b n = (b.chunk_size < b.chunk_used + n) ⊎ (b.chunk_used + n + 4 ≤ b.chunk_size)

-- The buffer is valid, and its stream is this one.
pub record Holds (b : Buffer) (stream : List ℕ) (out : Run Buffer) : Type 0 where
  pub after : Buffer
  pub returns : out ≡ ok after
  pub valid : IsValid after
  pub streams : payload after ≡ stream
  pub same_position : after.parse_position ≡ b.parse_position
  pub used : after.chunk_used ≡ length stream
  pub room :
      after.chunk_size
      ≡ (if ltb b.chunk_size (after.chunk_used - 4) then after.chunk_used + 60 else b.chunk_size)

length-entry :
    (xs bytes : List ℕ) (n : ℕ)
    → n ≤ length bytes
    → length (xs ++ (int_bytes n ++ take n bytes)) ≡ length xs + 4 + n
length-entry xs bytes n h = omega (
  arith,
  length-append xs (int_bytes n ++ take n bytes),
  length-append (int_bytes n) (take n bytes),
  length-take n bytes,
)

put_entry-Holds :
    {b : Buffer} (bytes : List ℕ) (n : ℕ)
    → IsValid b
    → b.chunk_used + n + 4 ≤ b.chunk_size
    → n ≤ length bytes
    → Holds b (payload b ++ (int_bytes n ++ take n bytes)) (put_entry b bytes n)
unfolding put_entry
put_entry-Holds {b} bytes n v fits h = record {
  after = record b { chunk = second; chunk_used = b.chunk_used + 4 + n };
  returns = ground (arith, length-take n bytes, length-patch b.chunk b.chunk_used (int_bytes n));
  valid = ground (
    arith,
    length-patch b.chunk b.chunk_used (int_bytes n),
    length-patch first (b.chunk_used + 4) (take n bytes),
  );
  streams =
      take-patch first (b.chunk_used + 4) (take n bytes) (b.chunk_used + 4 + n)
        (omega (arith, length-take n bytes, length-patch b.chunk b.chunk_used (int_bytes n)))
        (omega (arith, length-take n bytes))
      ∙ ap (λ t. t ++ take n bytes)
          (take-patch b.chunk b.chunk_used (int_bytes n) (b.chunk_used + 4) (omega arith)
            (omega arith))
      ∙ append_assoc (payload b) (int_bytes n) (take n bytes);
  same_position = refl;
  used = omega (arith, length-entry (payload b) bytes n h, length-take b.chunk_used b.chunk);
  room = ground arith;
}
  where
    first : List ℕ
    first = patch b.chunk b.chunk_used (int_bytes n)

    second : List ℕ
    second = patch first (b.chunk_used + 4) (take n bytes)

put_entry_over :
    {b : Buffer} (bytes : List ℕ) (n : ℕ)
    → IsValid b
    → b.chunk_size < b.chunk_used + n + 4
    → n ≤ length bytes
    → put_entry b bytes n ≡ fault out_of_range
unfolding put_entry
put_entry_over {b} bytes n v over h =
    ground (arith, length-take n bytes, length-patch b.chunk b.chunk_used (int_bytes n))

over_lem :
    (b : Buffer) (n : ℕ)
    → ¬ Fits b n
    → (b.chunk_used + n ≤ b.chunk_size) × (b.chunk_size < b.chunk_used + n + 4)
over_lem b n not-Fits = elim (dec_lt b.chunk_size (b.chunk_used + n)) [
  | yes more ↦ absurd (not-Fits (inl more))
  | no enough ↦ elim (dec_lt b.chunk_size (b.chunk_used + n + 4)) [
    | yes short ↦ (omega arith, short)
    | no long ↦ absurd (not-Fits (inr (omega arith)))
  ]
]

not_fits_lem :
    (b : Buffer) (m n : ℕ)
    → b.chunk_size ≡ 64 + m
    → b.chunk_used ≡ 4 + m
    → 57 ≤ n
    → n ≤ 60
    → ¬ Fits b n
not_fits_lem b m n p q lo hi (inl more) = omega arith
not_fits_lem b m n p q lo hi (inr fits) = omega arith

module _ (malloc : ℕ → List ℕ) (malloc_length : (n : ℕ) → length (malloc n) ≡ n) where
  abbrev grown : Buffer → ℕ → Buffer
  grown b size = record b { chunk = patch (malloc size) 0 (payload b); chunk_size = size }

  enlarge_none : (b : Buffer) (n : ℕ) → b.chunk_used + n ≤ b.chunk_size → enlarge malloc b n ≡ ok b
  unfolding enlarge
  enlarge_none b n h = ground arith

  enlarge_more :
      (b : Buffer) (n : ℕ)
      → IsValid b
      → b.chunk_size < b.chunk_used + n
      → enlarge malloc b n ≡ ok (grown b (b.chunk_used + n + def_grow_size))
  unfolding enlarge
  enlarge_more b n v h =
      ground
        (arith, malloc_length (b.chunk_used + n + def_grow_size), length-take b.chunk_used b.chunk)

  grown_lem :
      (b : Buffer) (size : ℕ)
      → IsValid b
      → b.chunk_used ≤ size
      → IsValid (grown b size) × (payload (grown b size) ≡ payload b)
  grown_lem b size v h = ground (
    arith,
    malloc_length size,
    length-patch (malloc size) 0 (payload b),
    length-take b.chunk_used b.chunk,
    take-patch (malloc size) 0 (payload b) b.chunk_used,
  )

  append_sized-Holds :
      {b : Buffer} (bytes : List ℕ) (n : ℕ)
      → IsValid b
      → Fits b n
      → n ≤ length bytes
      → Holds b (payload b ++ (int_bytes n ++ take n bytes)) (append_sized malloc b bytes n)
  unfolding append_sized
  append_sized-Holds {b} bytes n v (inr fits) h =
      rw (enlarge_none b n (omega arith)) (put_entry-Holds bytes n v fits h)
  append_sized-Holds {b} bytes n v (inl more) h =
      let size = b.chunk_used + n + def_grow_size in
      let g = grown_lem b size v (omega arith) in
      let q = put_entry-Holds {b = grown b size} bytes n g.0 (omega arith) h in
      rw (enlarge_more b n v more) (record {
        after = q.after;
        returns = q.returns;
        valid = q.valid;
        streams = q.streams ∙ ap (λ t. t ++ (int_bytes n ++ take n bytes)) g.1;
        same_position = q.same_position;
        used = omega (
          arith,
          q.used,
          ap length g.1,
          length-entry (payload b) bytes n h,
          length-entry (payload (grown b size)) bytes n h,
        );
        room = ground (
          arith,
          q.room,
          q.used,
          length-entry (payload (grown b size)) bytes n h,
          length-take b.chunk_used (grown b size).chunk,
          g.0,
        );
      })

  -- `rpc_buffer_append` on a valid buffer puts the size and the bytes of the entry behind the
  -- stream, keeps the invariant and the position, if the entry fits with its size, or not even
  -- without it.
  pub append-Holds :
      {b : Buffer} (bytes : List ℕ) (size : Size) (n : ℕ)
      → IsValid b
      → size_or_strlen bytes size ≡ ok n
      → Fits b n
      → n ≤ length bytes
      → Holds b (payload b ++ (int_bytes n ++ take n bytes)) (append malloc (some b) bytes size)
  unfolding append
  append-Holds bytes size n v e fits h = rw e (append_sized-Holds bytes n v fits h)

  -- `rpc_buffer_append` on a valid buffer writes past the end of the chunk in every other case: where
  -- the entry fits without its size, but not with it.
  pub append_overruns :
      {b : Buffer} (bytes : List ℕ) (size : Size) (n : ℕ)
      → IsValid b
      → size_or_strlen bytes size ≡ ok n
      → ¬ Fits b n
      → n ≤ length bytes
      → append malloc (some b) bytes size ≡ fault out_of_range
  unfolding append append_sized
  append_overruns {b} bytes size n v e not-Fits h =
      let o = over_lem b n not-Fits in rw (e, enlarge_none b n o.0) (put_entry_over bytes n v o.1 h)

  -- The first entry always fits.
  pub append_first-Holds :
      (bytes : List ℕ) (size : Size) (n : ℕ)
      → size_or_strlen bytes size ≡ ok n
      → n ≤ length bytes
      → Holds (empty malloc n) (int_bytes n ++ take n bytes) (append malloc none bytes size)
  unfolding append empty
  append_first-Holds bytes size n e h = rw e (
      append_sized-Holds {b = empty malloc n} bytes n (ground (arith, malloc_length (64 + n)))
        (inr (omega arith)) h)

  first_shape :
      (bytes : List ℕ) (size : Size) (n : ℕ) (b : Buffer)
      → size_or_strlen bytes size ≡ ok n
      → n ≤ length bytes
      → append malloc none bytes size ≡ ok b
      → IsValid b × (b.chunk_size ≡ 64 + n) × (b.chunk_used ≡ 4 + n)
  unfolding append append_sized enlarge put_entry empty
  first_shape bytes size n b e h done = ground (
    arith,
    malloc_length (64 + n),
    length-take n bytes,
    length-patch (malloc (64 + n)) 0 (int_bytes n),
    length-patch (patch (malloc (64 + n)) 0 (int_bytes n)) 4 (take n bytes),
  )

  -- A second entry of 57 to 60 bytes never fits: the test of the code passes, and up to four bytes
  -- go past the end of the chunk.
  pub append_second_overruns :
      (first second : List ℕ) (m n : ℕ) (one two : Size) (b : Buffer)
      → size_or_strlen first one ≡ ok m
      → size_or_strlen second two ≡ ok n
      → m ≤ length first
      → n ≤ length second
      → 57 ≤ n
      → n ≤ 60
      → append malloc none first one ≡ ok b
      → append malloc (some b) second two ≡ fault out_of_range
  append_second_overruns first second m n one two b e e' h h' lo hi done =
      let f = first_shape first one m b e h done in
      append_overruns second two n f.0 e' (λ fits. not_fits_lem b m n f.1 f.2 lo hi fits) h'
