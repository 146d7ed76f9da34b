-- ===== src/Tls/Received.antt =====
-- src/win32/ssl_socket.c: the bytes that are delivered.
use xrossfire.Base.{
  ℕ, zero, suc, Bool, true, false, none, ◌>>=◌, ◌+◌, ◌≡◌, refl, ap, sym, subst, ◌∙◌, Option, some,
  List, [], ◌∷◌, ◌++◌, append_assoc, append-nil, min, length, length-append, Returns, arith,
}
use xrossfire.Base.Int.{pos}
use xrossfire.Tls.{Log, live}
use xrossfire.Tls.Receive.{
  SslData, Receipt, Received, delivered, copy_from_buffer, free_context, Decrypted, receive_ph2,
  complete_receive,
}
use xrossfire.Tls.Copied.{IsBuffered, copy_from_buffer-Delivers}

-- Calls one after the other, and all the bytes that they deliver.
abbrev pub bytes_of : Receipt → List ℕ
bytes_of (delivered bytes) = bytes
bytes_of _ = []

-- Each is for so many bytes, and for an operation of its own, with so many holders besides its
-- completion.
abbrev pub Call : Type 0
Call = ℕ × ℕ

unfoldable pub copy_all : List Call → SslData → Log → Option (SslData × List ℕ × Log)
copy_all [] body log = some (body, [], log)
copy_all ((n, others) ∷ ns) body log = do
  out ← copy_from_buffer body (pos n) (live others false log)
  (body', bytes, log') ← copy_all ns out.body out.log
  some (body', bytes_of out.receipt ++ bytes, log')

-- The caller has been notified for the first time.
abbrev pub told : ℕ → Log → Log
told others log = record log {
  notified = 0 ∷ log.notified;
  holders = others;
  called = true;
  linked = false;
}

abbrev pub notify_each : List Call → Log → Log
notify_each [] log = log
notify_each ((n, others) ∷ ns) log = notify_each ns (told others log)

abbrev pub total_of : List Call → ℕ
total_of [] = 0
total_of ((n, others) ∷ ns) = n + total_of ns

-- What the calls deliver is what comes next, without a gap, and all there is if enough is asked for.
pub record Reassembles (ns : List Call) (before unread after : List ℕ) (log : Log)
    (out : SslData × List ℕ × Log) : Type 0 where
  pub rest : List ℕ
  pub parts : unread ≡ out.1 ++ rest
  pub size : length out.1 ≡ min (total_of ns) (length unread)
  pub buffered : IsBuffered (before ++ out.1) rest after out.0
  pub log_is : out.2 ≡ notify_each ns log

-- Let a buffer have delivered some bytes and have others that are not delivered. Calls for any
-- numbers of bytes, each for an operation of its own that is not completed and has at least one
-- holder, never fault: together they deliver the next bytes in order and without a gap, as many
-- as are asked for or all there are, what is left is not delivered yet, and each call notifies
-- its caller once with 0, which leaves the operation one holder less.
pub copy_all-Reassembles :
    (ns : List Call) (before unread after : List ℕ) (body : SslData) (log : Log)
    → IsBuffered before unread after body
    → Returns (copy_all ns body log) (Reassembles ns before unread after log)
unfolding copy_all
copy_all-Reassembles [] before unread after body log i = (
  _,
  refl,
  record {
    rest = unread;
    parts = refl;
    size = omega arith;
    buffered = subst (λ xs. IsBuffered xs unread after body) (sym (append-nil before)) i;
    log_is = refl;
  },
)
copy_all-Reassembles ((n, others) ∷ ns) before unread after body log i =
    let (out, ran, d) =
      copy_from_buffer-Delivers n before unread after body (live others false log) (told others log)
        refl i in
    let (last, ran', r) =
      copy_all-Reassembles ns (before ++ d.bytes) d.rest after out.body out.log d.buffered in
    rw (copy_all, ran)
      (rw (ran', d.receipt)
        (
          _,
          refl,
          record {
            rest = r.rest;
            parts =
                d.parts
                ∙ ap (λ xs. d.bytes ++ xs) r.parts
                ∙ sym (append_assoc d.bytes last.1 r.rest);
            size = omega (
              arith,
              length-append d.bytes last.1,
              d.size,
              r.size,
              ap length d.parts,
              length-append d.bytes d.rest,
            );
            buffered =
                subst (λ xs. IsBuffered xs r.rest after last.0) (append_assoc before d.bytes last.1)
                  r.buffered;
            log_is = r.log_is ∙ ap (notify_each ns) d.log_is;
          },
        ))

-- What `DecryptMessage` leaves of a record with these parts.
abbrev pub decrypted_of : List ℕ → List ℕ → List ℕ → Decrypted
decrypted_of header plain trailer = record {
  header_size = length header;
  data_size = length plain;
  bytes = header ++ (plain ++ trailer);
}

abbrev pub buffering : Decrypted → SslData
buffering d = record {
  received_buffer = some d.bytes;
  received_pos = pos d.header_size;
  received_length = pos d.data_size;
}

-- Only the part of the data in front of `lost` is counted as received.
record_IsBuffered :
    (header shown lost trailer : List ℕ)
    → length lost ≡ length header
    → IsBuffered header shown
        (lost ++ trailer)
        (buffering (decrypted_of header (shown ++ lost) trailer))
record_IsBuffered header shown lost trailer e = record {
  buffer = ap (λ xs. some (header ++ xs)) (append_assoc shown lost trailer);
  at_unread = refl;
  up_to = ap pos (omega (arith, length-append shown lost, e));
}

-- The completion of the record, with so many others who hold the caller's operation: without any
-- it faults.
abbrev pub Completes : ℕ → ℕ → List ℕ → List ℕ → List ℕ → List ℕ → Log → Option Received → Type 0
Completes zero n header shown lost trailer log o = o ≡ none
Completes (suc others) n header shown lost trailer log o = Returns o λ out.
    (bytes : List ℕ) × (rest : List ℕ) × (out.receipt ≡ delivered bytes)
    × (shown ≡ bytes ++ rest)
    × (length bytes ≡ min n (length shown))
    × IsBuffered (header ++ bytes) rest (lost ++ trailer) out.body
    × (out.log ≡ told (suc others) (free_context (told (suc others) log)))

-- Let a decrypted record have a header, data and a trailer, and let `lost` be the end of the
-- data, as long as the header. Let the caller's operation be not completed, and be held by its
-- completion and by so many others. If there are none, the completion of a receive of n bytes
-- faults: the caller is notified twice, and the first notification frees the operation. If there
-- are others, it does not fault, but it delivers at most n bytes of the data in front of `lost`,
-- the others in front of `lost` are all that later calls can deliver, the caller is notified with
-- 0 twice, and the others still hold the operation.
pub complete_receive-Completes :
    (others n : ℕ) (linked : Bool) (header shown lost trailer : List ℕ) (body : SslData) (log : Log)
    → length lost ≡ length header
    → Completes others n header shown lost trailer log (
        complete_receive 0
          (some (decrypted_of header (shown ++ lost) trailer))
          body
          (pos n)
          (live others linked log))
unfolding complete_receive receive_ph2
complete_receive-Completes zero n linked header shown lost trailer body log e =
    let (out, ran, d) =
      copy_from_buffer-Delivers n header shown (lost ++ trailer) _ (live 0 linked log)
        (record (told 0 log) { linked = linked }) refl
        (record_IsBuffered header shown lost trailer e) in
    rw (complete_receive, ran) (rw d.log_is refl)
complete_receive-Completes (suc others) n linked header shown lost trailer body log e =
    let (out, ran, d) =
      copy_from_buffer-Delivers n header shown (lost ++ trailer) _ (live (suc others) linked log)
        (record (told (suc others) log) { linked = linked }) refl
        (record_IsBuffered header shown lost trailer e) in
    rw (complete_receive, ran)
      (rw d.log_is (_, refl, (d.bytes, d.rest, d.receipt, d.parts, d.size, d.buffered, refl)))
