-- ===== src/Tests.antt =====
-- Concrete states for the tests: a library with one slot and no session, and one with one session.
mod Pins
mod Sessions
mod Logins
mod Objects
mod Starts
mod Toy
mod Sequences
mod Signatures
mod KeyPairs
mod Servers
mod Threads
use pst_boitier_pki.Common.{
  ℕ, ◌≡◌, ◌≢◌, refl, Bool, true, false, Option, none, some, inl, inr, Bytes, take, replicate, ◌∷◌,
  [], ◌++◌, update, update-eq, update-some_cases, count_used, find_from, arith, sym, ap, ◌∙◌,
}
use pst_boitier_pki.Hsm.State.{mutex_free, HsmContext, HsmSlot, HsmSession, Token, Disk, HsmObject}
use pst_boitier_pki.Hsm.Cmd.{done, read_slot}
use pst_boitier_pki.Hsm.Focus.{entry}
use pst_boitier_pki.Hsm.Invariant.{IsReady, SessionsOk, IsWell}
use pst_boitier_pki.Session.{new_session, hsm_get_session}
use pst_boitier_pki.Session.Create.{opened, slot_opened}
use pst_boitier_pki.Login.Refine.{Leads}

-- Stands for the hash: the text padded to 32 bytes.
abbrev pub digest : Bytes → Bytes
digest b = take 32 (b ++ replicate 32 0)

abbrev pub user_pin : Bytes
user_pin = 1 ∷ 2 ∷ 3 ∷ 4 ∷ []

abbrev pub so_pin : Bytes
so_pin = 9 ∷ 9 ∷ 9 ∷ 9 ∷ 9 ∷ []

abbrev pub wrong : Bytes
wrong = 1 ∷ 1 ∷ 1 ∷ 1 ∷ []

abbrev pub sample : Token
sample = record {
  token_label = replicate 32 b'A';
  token_initialized = true;
  user_pin_initialized = true;
  so_pin_initialized = true;
  user_pin_hash = digest user_pin;
  so_pin_hash = digest so_pin;
  user_pin_retry_count = 3;
  so_pin_retry_count = 3;
  user_pin_locked = false;
  so_pin_locked = false;
}

abbrev pub disk : Disk
disk = record {
  storage_dir = true;
  key_dir = true;
  can_mkdir = true;
  token_file = none;
  token_writable = true;
  object_files = λ _. none;
  keys_writable = true;
}

abbrev pub slot : HsmSlot
slot = record {
  slot_id = 0;
  token_present = true;
  token = sample;
  sessions = λ _. none;
  session_count = 0;
  objects = λ _. none;
  object_count = 0;
  lock = false;
}

abbrev pub quiet : HsmContext
quiet = record {
  initialized = true;
  global_lock = mutex_free;
  slots = λ _. slot;
  slots_len = 1;
  slot_count = 1;
  max_sessions = 64;
  max_objects = 1024;
  enforce_timeouts = true;
  session_timeout = 300;
  next_session_handle = 1;
  object_counter = 1;
  disk = disk;
}

-- The session that the flags `CKF_RW_SESSION | CKF_SERIAL_SESSION` open at time 100.
abbrev pub session : HsmSession
session = new_session 1 0 6 100

abbrev pub busy : HsmContext
busy = opened 100 6 0 quiet

pub quiet-IsReady : IsReady quiet
quiet-IsReady = record { initialized = refl; slot_count = refl; slots_len = refl; free = refl }

none-some : (x : HsmSession) → none ≢ some x
none-some x e = ground arith

pub quiet-IsWell : IsWell quiet
unfolding count_used
quiet-IsWell = record {
  ready = quiet-IsReady;
  sessions = record {
    counted = refl;
    below = λ i x e. absurd (none-some x e);
    distinct = λ i j x y e. absurd (none-some x e);
    home = λ i x e. absurd (none-some x e);
    free = λ i x e. absurd (none-some x e);
  };
}

pub busy-IsReady : IsReady busy
unfolding update
busy-IsReady = record { initialized = refl; slot_count = refl; slots_len = refl; free = refl }

pub only : (i : ℕ) (x : HsmSession) → (busy.slots 0).sessions i ≡ some x → (i ≡ 0) × (session ≡ x)
only i x e =
    let at_zero : update (λ _. none) 0 (some session) i ≡ (busy.slots 0).sessions i =
      ap (λ (t : HsmSlot). t.sessions i)
        (sym (update-eq quiet.slots 0 (slot_opened slot 0 session))) in
    elim (update-some_cases (λ _. none) 0 session i (at_zero ∙ e)) [
      | inl p ↦ p
      | inr (_, q) ↦ absurd (none-some x q)
    ]

pub busy-IsWell : IsWell busy
unfolding count_used update
busy-IsWell = record {
  ready = busy-IsReady;
  sessions = record {
    counted = refl;
    below = λ i x e. ground (arith, only i x e);
    distinct = λ i j x y e q h. (only i x e).0 ∙ sym (only j y q).0;
    home = λ i x e. ap (λ (y : HsmSession). y.slot_id) (sym (only i x e).1);
    free = λ i x e. ap (λ (y : HsmSession). y.lock) (sym (only i x e).1);
  };
}

pub busy-Leads : Leads 1 0 session busy
unfolding hsm_get_session read_slot find_from update
busy-Leads = record { found = refl; present = refl; home = refl; free = refl }
