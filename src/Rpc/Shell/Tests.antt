-- ===== src/Rpc/Shell/Tests.antt =====
-- A request that is sent and received, and one that arrives in two pieces, with a header of eight
-- bytes and a cipher that adds one to every byte.
use livezure.Prelude.{
  ℕ, ◌≡◌, ◌++◌, refl, List, [], ◌∷◌, arith, false, some, ok, fault, Fault, inr, zeros, length-zeros,
}
use livezure.Rpc.Queue
use livezure.Rpc.Buffer.{Buffer}
use livezure.Rpc.Buffer.Append.{payload}
use livezure.Rpc.Crypt.Tests.{shifts, length-shift, shift_inverse}
use livezure.Rpc.Io.{Io}
use livezure.Rpc.Shell.{Shell, Layout, magic_number, version_sign, make_shell, enqueue_found}
use livezure.Rpc.Shell.Received.{Dispatches, enqueue_part}
use livezure.Rpc.Shell.Sealed.{enqueue-request}

unfoldable pub fields : List ℕ → Shell
fields (m ∷ v ∷ c ∷ s ∷ q ∷ t ∷ b ∷ r ∷ []) = record {
  magic = m;
  version = v;
  category = c;
  sub_category = s;
  req = q;
  crypt = t;
  body_size = b;
  reserved = r;
}
fields other = record {
  magic = 0;
  version = 0;
  category = 0;
  sub_category = 0;
  req = 0;
  crypt = 0;
  body_size = 0;
  reserved = 0;
}

abbrev pub eight : Layout
eight = record {
  size = 8;
  encode = λ s.
      s.magic ∷ s.version ∷ s.category ∷ s.sub_category ∷ s.req ∷ s.crypt ∷ s.body_size ∷ s.reserved
      ∷ [];
  decode = fields;
}

abbrev pub aes_request : Shell
aes_request = record {
  magic = magic_number;
  version = version_sign;
  category = 2;
  sub_category = 1;
  req = 0;
  crypt = 1;
  body_size = 0;
  reserved = 0;
}

abbrev two_bytes : Buffer
two_bytes = record {
  chunk = b'a' ∷ b'b' ∷ zeros 68;
  chunk_size = 70;
  chunk_used = 2;
  parse_position = 0;
}

abbrev pub idle : Io
idle = record {
  send = Queue.new;
  recv = record {
    buffer = zeros 64;
    head = 3;
    tail = 3;
    capacity = 64;
    expand = 64;
    ret_buffer = [];
    ret_buffer_size = 0;
  };
  shell_cached = false;
  fd = 5;
  extra = 0;
}

enqueue-request_example :
    (shell' : Shell) × (sent received : Buffer) × (make_shell zeros eight shifts aes_request
        (some two_bytes)
      ≡ ok (shell', sent))
    × Dispatches eight shell'
        (some received)
        idle
        (enqueue_found zeros eight shifts 2 (payload sent) idle)
    × (payload received ≡ payload two_bytes)
unfolding fields
enqueue-request_example =
    enqueue-request zeros length-zeros eight shifts two_bytes (omega arith) (omega arith)
      length-shift shift_inverse aes_request idle 0 (omega arith) (inr refl)
      (λ n h. record {
        positive = omega arith;
        length-encode = refl;
        decode-encode = refl;
        same_magic = refl;
        same_version = refl;
      })
      refl refl refl (omega arith)

abbrev ten_bytes : Shell
ten_bytes = record aes_request { crypt = 0; body_size = 10 }

enqueue_part_example :
    (io' : Io) × (why : Fault) × (enqueue_found zeros eight shifts 1
        (eight.encode ten_bytes ++ (1 ∷ 2 ∷ []))
        idle
      ≡ ok (1, io', []))
    × (enqueue_found zeros eight shifts 1 (3 ∷ 4 ∷ []) io' ≡ fault why)
unfolding fields
enqueue_part_example =
    enqueue_part zeros eight shifts ten_bytes
      (record {
        positive = omega arith;
        length-encode = refl;
        decode-encode = refl;
        same_magic = refl;
        same_version = refl;
      })
      idle (1 ∷ 2 ∷ [])
      (record { not_cached = refl; allocated = refl; empty = refl; room = omega arith }) 0 0
      (3 ∷ 4 ∷ []) (omega arith)
