-- ===== src/Tls.antt =====
-- src/win32/ssl_socket.c: what the parts of the TLS socket share.
--
-- Bytes are numbers, and a buffer is the list of its bytes. A copy of a negative length, or past the
-- end of its source, is a fault. The log has what leaves the socket: the frames that are handed to
-- the base socket, the notifications of the caller's operation, the last first, and how many records
-- and buffers have been freed. It also has what these do with the record of the caller's operation,
-- which has a completion procedure: how many hold it, its timeout aside, none once it is freed,
-- whether it is completed, and whether it has a child. Between the steps of a call nobody else takes
-- or gives back a reference. SSPI is the operating system's: its answers are arguments.
pub mod Send
pub mod Chunks
pub mod Sent
pub mod Receive
pub mod Copied
pub mod Received
pub mod Handshake
pub mod Outcome
pub mod Phase
pub mod Shaken
pub mod Fault
pub mod Messages
pub mod Typed
pub mod Tests
use xrossfire.Base.{
  ℕ, zero, suc, ◌-◌, ◌≤◌, ◌≡◌, refl, ap, sym, ◌∙◌, Option, none, some, List, [], ◌∷◌, ◌++◌, ◌>>=◌,
  take, length, arith, Bool, true, false, if◌then◌else◌,
}
use xrossfire.Base.Int.{ℤ, pos, negsuc}

pub record Log : Type 0 where
  pub frames : List (List ℕ)
  pub notified : List ℕ
  pub freed_contexts : ℕ
  pub freed_buffers : ℕ
  pub holders : ℕ
  pub called : Bool
  pub linked : Bool

-- `xf_async_notify` of the caller's operation, which faults once that has been freed: its completion
-- gives a reference back, and what comes after that does not.
abbrev pub notify_parent : ℕ → Log → Option Log
notify_parent error log = elim log.holders [
  | zero ↦ none
  | suc n ↦ some (record log {
    notified = error ∷ log.notified;
    holders = if log.called then suc n else n;
    called = true;
  })
]

-- `xf_async_new` with the caller's operation as the parent writes `child_async` of it, and so does the
-- release that frees the child when its completion procedure has returned.
abbrev pub link_child : Bool → Log → Option Log
link_child linked log = elim log.holders [
  | zero ↦ none
  | suc n ↦ some (record log { linked = linked })
]

-- Nobody has completed the caller's operation, and so many hold it besides its completion.
abbrev pub live : ℕ → Bool → Log → Log
live others linked log = record log { holders = suc others; called = false; linked = linked }

-- The first bytes of a buffer, and the others.
unfoldable pub read : ℕ → List ℕ → Option (List ℕ × List ℕ)
read zero xs = some ([], xs)
read (suc n) [] = none
read (suc n) (x ∷ xs) = read n xs >>= λ out. some (x ∷ out.0, out.1)

-- `memcpy` of a signed number of bytes.
unfoldable pub copy : ℤ → List ℕ → Option (List ℕ × List ℕ)
copy (pos n) xs = read n xs
copy (negsuc n) xs = none

-- What a read of `k` bytes gives, of a buffer in which `n` bytes count.
pub record Reads (k n : ℕ) (xs : List ℕ) (message rest : List ℕ) : Type 0 where
  pub reads : read k xs ≡ some (message, rest)
  pub size : length message ≡ k
  pub parts : take n xs ≡ message ++ take (n - k) rest
  pub left : length rest ≡ length xs - k

zero_less : (n : ℕ) → n - 0 ≡ n
zero_less n = omega arith

suc_less : (n k : ℕ) → suc n - suc k ≡ n - k
suc_less n k = omega arith

pub read-Reads :
    (k n : ℕ) (xs : List ℕ)
    → k ≤ n
    → n ≤ length xs
    → (message : List ℕ) × (rest : List ℕ) × Reads k n xs message rest
unfolding read
read-Reads zero n xs h h' = (
  [],
  xs,
  record {
    reads = refl;
    size = refl;
    parts = ap (λ i. take i xs) (sym (zero_less n));
    left = sym (zero_less (length xs));
  },
)
read-Reads (suc k) zero xs h h' = absurd (omega arith)
read-Reads (suc k) (suc n) [] h h' = absurd (omega arith)
read-Reads (suc k) (suc n) (x ∷ xs) h h' =
    let (message, rest, i) = read-Reads k n xs (omega arith) (omega arith) in
    (
      x ∷ message,
      rest,
      record {
        reads = rw (read, i.reads) refl;
        size = ap suc i.size;
        parts = ap (λ zs. x ∷ zs) (i.parts ∙ ap (λ j. message ++ take j rest) (sym (suc_less n k)));
        left = i.left ∙ sym (suc_less (length xs) k);
      },
    )
