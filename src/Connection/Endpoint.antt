-- ===== src/Connection/Endpoint.antt =====
-- `_ConnectionBase`: the handle of a connection, its two directions, and the checks of its methods.
mod Limits
mod Tests
use billiard.Prelude.{
  ℕ, ◌+◌, ◌-◌, ◌⊎◌, inl, inr, ◌++◌, Bool, true, false, Option, none, some, List, [], ◌∷◌, length,
  take, drop, ltb, if◌then◌else◌, ◌&&◌, not,
}
use billiard.Prelude.Int.{ℤ, pos, negsuc}
use billiard.Connection.Stream.{
  Write, Read, Sent, Received, got, raised, waits, too_long, send_bytes, recv_bytes,
}

pub record Endpoint : Type 0 where
  pub handle : Option ℕ
  pub readable : Bool
  pub writable : Bool

pub data Exn : Type 0 where
  invalid_handle no_direction : Exn
  handle_closed write_only read_only bad_message_length : Exn
  offset_negative offset_too_large size_negative size_too_large negative_maxlength : Exn
  -- BufferTooShort, with the message
  buffer_too_short : List ℕ → Exn

-- `__init__`
unfoldable pub init : ℤ → Bool → Bool → Endpoint ⊎ Exn
init (negsuc n) readable writable = inr invalid_handle
init (pos n) true writable = inl (record { handle = some n; readable = true; writable = writable })
init (pos n) false true = inl (record { handle = some n; readable = false; writable = true })
init (pos n) false false = inr no_direction

-- `close`
unfoldable pub close : Endpoint → Endpoint
close c = record c { handle = none }

-- `_check_closed`, then `_check_writable` or `_check_readable`
abbrev pub check : Option ℕ → Bool → Exn → Option Exn
check none allowed e = some handle_closed
check (some n) true e = none
check (some n) false e = some e

-- The part of the buffer that `send_bytes` sends.
unfoldable pub part : List ℕ → ℤ → Option ℤ → List ℕ ⊎ Exn
part buf (negsuc n) size = inr offset_negative
part buf (pos offset) size = if ltb (length buf) offset then inr offset_too_large else elim size [
  | none ↦ inl (take (length buf - offset) (drop offset buf))
  | some (negsuc n) ↦ inr size_negative
  | some (pos n) ↦
      if ltb (length buf) (offset + n) then inr size_too_large else inl (take n (drop offset buf))
]

-- `send_bytes`: the exception of a check, or the calls of `_send_bytes`.
unfoldable pub send : Endpoint → List Write → List ℕ → ℤ → Option ℤ → Option Sent ⊎ Exn
unfolding part
send c ws buf offset size = elim (check c.handle c.writable read_only) [
  | some e ↦ inr e
  | none ↦ elim (part buf offset size) [ inl bytes ↦ inl (send_bytes ws bytes) | inr e ↦ inr e ]
]

-- `_bad_message_length`, without its raise
unfoldable pub bad_message_length_state : Endpoint → Endpoint
unfolding close
bad_message_length_state c = if c.writable then record c { readable = false } else close c

-- What `recv_bytes` ends with: what the stream gave, or an exception of its own.
abbrev pub after_recv : Endpoint → Received → Endpoint × (Received ⊎ Exn)
after_recv c too_long = (bad_message_length_state c, inr bad_message_length)
after_recv c (got buf stream rs) = (c, inl (got buf stream rs))
after_recv c (raised e) = (c, inl (raised e))
after_recv c waits = (c, inl waits)

-- `recv_bytes`
unfoldable pub recv : Endpoint → List Read → Option ℤ → List ℕ → Endpoint × (Received ⊎ Exn)
recv c rs maxlength stream = elim (check c.handle c.readable write_only) [
  | some e ↦ (c, inr e)
  | none ↦ elim maxlength [
    | none ↦ after_recv c (recv_bytes rs none stream)
    | some (pos n) ↦ after_recv c (recv_bytes rs (some n) stream)
    | some (negsuc n) ↦ (c, inr negative_maxlength)
  ]
]

-- The bytes of the buffer after `recv_bytes_into`, whose items have one byte, or the exception.
abbrev pub write_at : ℕ → List ℕ → List ℕ → List ℕ
write_at offset buf dest = take offset dest ++ buf ++ drop (offset + length buf) dest

-- `recv_bytes_into`
unfoldable pub recv_into :
    Endpoint → List Read → List ℕ → ℤ → List ℕ → (List ℕ × ℕ) ⊎ Exn ⊎ Received
recv_into c rs dest offset stream = elim (check c.handle c.readable write_only) [
  | some e ↦ inr (inl e)
  | none ↦ elim offset [
    | negsuc n ↦ inr (inl offset_negative)
    | pos start ↦
        if ltb (length dest) start
        then inr (inl offset_too_large)
        else elim (recv_bytes rs none stream) [
          | got buf rest left ↦
              if ltb (length dest) (start + length buf)
              then inr (inl (buffer_too_short buf))
              else inl (write_at start buf dest, length buf)
          | raised e ↦ inr (inr (raised e))
          | waits ↦ inr (inr waits)
          | too_long ↦ inr (inr too_long)
        ]
  ]
]
