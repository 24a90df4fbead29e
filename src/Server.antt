-- ===== src/Server.antt =====
-- hsm/src/network/network_server.c: one connection of the server, as the bytes that the client sends
-- and those that it gets, and the life of the server. `recv` with MSG_WAITALL waits
-- until it has the bytes asked for or the client closes the connection; where the client does neither,
-- it waits for ever, and so does `send` where the client stops reading. A broken connection (and the
-- SIGPIPE that `send` may then raise), and a signal in the middle of a read, which shortens it, are left
-- out. The two buffers of a connection are arrays of 65,536 bytes, whose first contents are not known.
pub mod Frame
pub mod Rounds
pub mod Requests
pub mod Lifetime
pub mod Threads
use pst_boitier_pki.Common.{
  ℕ, zero, suc, ◌+◌, ◌*◌, ◌-◌, ◌/◌, ◌%◌, ◌^◌, Bool, true, false, Option, none, some, List, [], ◌∷◌,
  ◌++◌, Bytes, length, take, drop, window, write_at, ltb, leb, ◌==◌, if◌then◌else◌, not, ◌&&◌,
}
use pst_boitier_pki.Cryptoki.{
  CkRv, ckr_ok, ckr_code, is_ok, ckr_function_failed, ckr_function_not_supported,
}
use pst_boitier_pki.Hsm.State.{HsmContext}
use pst_boitier_pki.Hsm.Cmd.{Cmd, deadlock, pure, ◌>>=◌, ◌>>◌, get}
use pst_boitier_pki.Storage.{little_endian, number}
use pst_boitier_pki.OpenSsl.{OpenSsl}
use pst_boitier_pki.SignCalls.{c_generate_random}
use pst_boitier_pki.Info.{CkVersion, CkInfo, c_get_info, c_get_slot_list}
use pst_boitier_pki.Library.{c_initialize, c_finalize}

abbrev pub buffer_size : ℕ
buffer_size = 65536

-- The commands that have a case.
abbrev pub cmd_get_info : ℕ
cmd_get_info = 0x03

abbrev pub cmd_get_slot_list : ℕ
cmd_get_slot_list = 0x04

abbrev pub cmd_generate_random : ℕ
cmd_generate_random = 0x15

-- A connection: the two buffers, the bytes still to come, whether the client closes the connection
-- after them or stays silent, the bytes sent, and whether the client has room for so many in all.
pub record Client : Type 0 where
  pub buffer : ℕ → ℕ
  pub response : ℕ → ℕ
  pub input : Bytes
  pub closes : Bool
  pub sent : Bytes
  pub takes : ℕ → Bool

-- `recv` for `n` bytes waits for ever.
abbrev pub waits : (n : ℕ) → Client → Bool
waits n c = ltb (length c.input) n && not c.closes

-- `recv(client_fd, buffer + at, n, MSG_WAITALL)` where it returns: how many bytes were read is
-- `length (take n input)`.
abbrev pub receive : (at' n : ℕ) → Client → Client
receive at' n c = record c {
  buffer = write_at c.buffer at' (take n c.input);
  input = drop n c.input;
}

-- The length in the header.
abbrev pub body_length : (ℕ → ℕ) → ℕ
body_length b = b 1 * 2 ^ 24 + b 2 * 2 ^ 16 + b 3 * 2 ^ 8 + b 4

-- The bytes of a `CK_INFO`: `flags` is aligned to 8 bytes, and so is the size.
unfoldable pub info_bytes : CkInfo → Bytes
info_bytes i =
    i.cryptoki_version.major
    ∷ i.cryptoki_version.minor
    ∷ (i.manufacturer_id
        ++ (little_endian 6 0
            ++ (little_endian 8 i.flags
                ++ (i.library_description
                    ++ (i.library_version.major ∷ i.library_version.minor ∷ little_endian 6 0)))))

-- The bytes of `count` and of the slots.
unfoldable pub slots_bytes : List ℕ → Bytes
slots_bytes [] = []
slots_bytes (s ∷ ss) = little_endian 8 s ++ slots_bytes ss

-- What the `switch` leaves: `rv`, `response_len`, and the bytes that it writes to `response + 5`.
abbrev pub Answer : Type 0
Answer = CkRv × ℕ × Bytes

unfoldable pub get_info_case : Cmd Answer
get_info_case g = elim (c_get_info true g).1 [
  | none ↦ pure ((c_get_info true g).0, 0, []) g
  | some info ↦ pure ((c_get_info true g).0, 88, info_bytes info) g
]

unfoldable pub get_slot_list_case : (token_present : Bool) → Cmd Answer
get_slot_list_case token_present = do
  out ← c_get_slot_list token_present true (some 10)
  let (rv, list, count) = out in
      elim list [
        | none ↦ pure (rv, 0, [])
        | some slots ↦ pure (rv, 8 + count * 8, little_endian 8 count ++ slots_bytes slots)
      ]

-- The five bytes of the response's header.
abbrev pub header : CkRv → (response_len : ℕ) → Bytes
header rv response_len =
    (ckr_code rv / 2 ^ 24) % 256
    ∷ (ckr_code rv / 2 ^ 16) % 256
    ∷ (ckr_code rv / 2 ^ 8) % 256
    ∷ ckr_code rv % 256
    ∷ response_len % 256
    ∷ []

-- The header and the sending, where `send` returns.
abbrev pub respond : Client → Answer → Client
respond c answer =
    let (rv, response_len, payload) = answer in
    let response = write_at (write_at c.response 5 payload) 0 (header rv response_len) in
    record c { response = response; sent = c.sent ++ window response 0 (5 + response_len) }

module _ (o : OpenSsl) where
  unfoldable pub generate_random_case : (session len : ℕ) → Cmd Answer
  generate_random_case session len =
      if leb len (buffer_size - 100)
      then (do
        out ← c_generate_random o true len session
        let (rv, bytes) = out in
            elim bytes [ none ↦ pure (rv, 0, []) | some b ↦ pure (rv, len, b) ])
      else pure (ckr_function_failed, 0, [])

  -- The `switch`, on the receive buffer.
  unfoldable pub process : (ℕ → ℕ) → Cmd Answer
  process b =
      if b 0 == cmd_get_info
      then get_info_case
      else if b 0 == cmd_get_slot_list
      then get_slot_list_case (not (b 5 == 0))
      else if b 0 == cmd_generate_random
      then generate_random_case (number (window b 5 8)) (number (window b 13 8))
      else pure (ckr_function_not_supported, 0, [])

  -- One round of the loop; `none` for its `break`. A header of one to four bytes is taken, with what
  -- the buffer held.
  unfoldable pub serve : Client → Cmd (Option Client)
  serve c =
      if waits 5 c
      then (λ g. deadlock)
      else if length (take 5 c.input) == 0
      then pure none
      else let c1 = receive 0 5 c in
        let len = body_length c1.buffer in
        if ltb (buffer_size - 5) len
        then pure none
        else if waits len c1
        then (λ g. deadlock)
        else if not (length (take len c1.input) == len)
        then pure none
        else do
          answer ← process (receive 5 len c1).buffer
          let next = respond (receive 5 len c1) answer in
              if c.takes (length next.sent) then pure (some next) else (λ g. deadlock)

  -- The loop, for `n` rounds at most. The flag that it reads before round `k` is `running k`: the
  -- handler of a signal may clear it. With the state of the connection at the end comes whether the loop
  -- has ended.
  unfoldable pub handle_client : (running : ℕ → Bool) → (n k : ℕ) → Client → Cmd (Bool × Client)
  handle_client running zero k c = pure (false, c)
  handle_client running (suc n) k c = if not (running k) then pure (true, c) else do
    next ← serve c
    elim next [ none ↦ pure (true, c) | some c' ↦ handle_client running n (suc k) c' ]

-- How `accept` ends.
pub data Accept : Type 0 where
  connected interrupted failed : Accept

-- The loop that accepts connections: how many threads it makes. The flag `running` before each round
-- comes with what `accept` does in it; the list ends where the flag is off.
unfoldable pub accept_loop : List Accept → ℕ
accept_loop [] = 0
accept_loop (interrupted ∷ events) = accept_loop events
accept_loop (failed ∷ events) = 0
accept_loop (connected ∷ events) = suc (accept_loop events)

-- The calls for the socket: whether `socket` gives the descriptor 0, and whether the others fail.
pub record Sockets : Type 0 where
  pub socket_zero : Bool
  pub setsockopt_fails : Bool
  pub bind_fails : Bool
  pub listen_fails : Bool

-- The exit status, and the number of threads.
unfoldable pub network_server_start : (alloc_ok : Bool) → Sockets → List Accept → Cmd (ℕ × ℕ)
network_server_start alloc_ok k events = do
  rv ← c_initialize alloc_ok
  if not (is_ok rv)
      then pure (1, 0)
      else if k.socket_zero
      then pure (1, 0)
      else if k.setsockopt_fails
      then pure (1, 0)
      else if k.bind_fails
      then pure (1, 0)
      else if k.listen_fails
      then pure (1, 0)
      else do c_finalize false; pure (0, accept_loop events)

-- `main`, with `atoi` of the argument, if there is one, in 16 bits.
unfoldable pub main : (argument : Option ℕ) (alloc_ok : Bool) → Sockets → List Accept → Cmd (ℕ × ℕ)
main none alloc_ok k events = network_server_start alloc_ok k events
main (some port) alloc_ok k events =
    if port % 2 ^ 16 == 0 then pure (1, 0) else network_server_start alloc_ok k events
