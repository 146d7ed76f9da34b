-- ===== src/Tls/Copied.antt =====
-- src/win32/ssl_socket.c: the bytes that one call takes out of the buffer.
use xrossfire.Base.{
  ℕ, zero, suc, ◌+◌, ◌≤◌, ◌≡◌, refl, ap, sym, subst, ◌∙◌, some, List, [], ◌∷◌, ◌++◌, append_assoc,
  min, length, length-append, Returns, arith,
}
use xrossfire.Base.Int.{pos, ◌+ℤ◌, ◌-ℤ◌}
use xrossfire.Tls.{Log, notify_parent, copy, read}
use xrossfire.Tls.Receive.{SslData, delivered, Received, get_copy_length, copy_from_buffer}

-- The buffer is what has been delivered, what has not, and what does not count.
pub record IsBuffered (before unread after : List ℕ) (body : SslData) : Type 0 where
  pub buffer : body.received_buffer ≡ some (before ++ (unread ++ after))
  pub at_unread : body.received_pos ≡ pos (length before)
  pub up_to : body.received_length ≡ pos (length before + length unread)

read-append : (xs ys : List ℕ) → read (length xs) (xs ++ ys) ≡ some (xs, ys)
unfolding read
read-append [] ys = refl
read-append (x ∷ xs) ys = rw (read, read-append xs ys) refl

split_at :
    (k : ℕ) (xs : List ℕ)
    → k ≤ length xs
    → (ys : List ℕ) × (zs : List ℕ) × (xs ≡ ys ++ zs) × (length ys ≡ k)
split_at zero xs h = ([], xs, refl, refl)
split_at (suc k) [] h = absurd (omega arith)
split_at (suc k) (x ∷ xs) h =
    let (ys, zs, e, e') = split_at k xs (omega arith) in (x ∷ ys, zs, ap (λ l. x ∷ l) e, ap suc e')

copy_length :
    (n b u : ℕ) (body : SslData)
    → body.received_pos ≡ pos b
    → body.received_length ≡ pos (b + u)
    → get_copy_length body (pos n) ≡ pos (min n u)
unfolding get_copy_length ◌-ℤ◌
copy_length n b u body e e' = rw (e, e') (ground arith)

regroup :
    (before bytes rest after unread : List ℕ)
    → unread ≡ bytes ++ rest
    → before ++ (unread ++ after) ≡ (before ++ bytes) ++ (rest ++ after)
regroup before bytes rest after unread e =
    ap (λ xs. before ++ (xs ++ after)) e
    ∙ ap (λ xs. before ++ xs) (append_assoc bytes rest after)
    ∙ sym (append_assoc before bytes (rest ++ after))

total :
    (before bytes rest unread : List ℕ)
    → unread ≡ bytes ++ rest
    → length before + length unread ≡ length (before ++ bytes) + length rest
total before bytes rest unread e =
    omega (arith, length-append before bytes, length-append bytes rest, ap length e)

-- A call for `n` bytes delivers the next `n`, or all there are, and leaves the log.
pub record Delivers (n : ℕ) (before unread after : List ℕ) (log : Log) (out : Received)
    : Type 0 where
  pub bytes : List ℕ
  pub rest : List ℕ
  pub receipt : out.receipt ≡ delivered bytes
  pub parts : unread ≡ bytes ++ rest
  pub size : length bytes ≡ min n (length unread)
  pub buffered : IsBuffered (before ++ bytes) rest after out.body
  pub log_is : out.log ≡ log

plus : (a b : ℕ) → pos a +ℤ pos b ≡ pos (a + b)
unfolding ◌+ℤ◌
plus a b = ground arith

copy_from_buffer-reads :
    (n : ℕ) (before bytes rest after : List ℕ) (body : SslData) (log log' : Log)
    → notify_parent 0 log ≡ some log'
    → IsBuffered before (bytes ++ rest) after body
    → length bytes ≡ min n (length (bytes ++ rest))
    → copy_from_buffer body (pos n) log
      ≡ some (record {
        body = record body { received_pos = pos (length before + length bytes) };
        receipt = delivered bytes;
        log = log';
      })
unfolding copy_from_buffer copy
copy_from_buffer-reads n before bytes rest after body log log' told i size =
    rw
      (
        copy_length n (length before) (length (bytes ++ rest)) body i.at_unread i.up_to
            ∙ ap pos (sym size),
        i.buffer ∙ ap (λ xs. some (before ++ xs)) (append_assoc bytes rest after),
        i.at_unread,
        told,
      )
      (rw (read-append before (bytes ++ (rest ++ after)))
        (rw (read-append bytes (rest ++ after), plus (length before) (length bytes)) refl))

pub copy_from_buffer-Delivers :
    (n : ℕ) (before unread after : List ℕ) (body : SslData) (log log' : Log)
    → notify_parent 0 log ≡ some log'
    → IsBuffered before unread after body
    → Returns (copy_from_buffer body (pos n) log) (Delivers n before unread after log')
copy_from_buffer-Delivers n before unread after body log log' told i =
    let (bytes, rest, e, size) = split_at (min n (length unread)) unread (omega arith) in
    let i' = subst (λ xs. IsBuffered before xs after body) e i in
    let size' = size ∙ ap (λ xs. min n (length xs)) e in
    (
      _,
      copy_from_buffer-reads n before bytes rest after body log log' told i' size',
      record {
        bytes = bytes;
        rest = rest;
        receipt = refl;
        parts = e;
        size = size;
        buffered = record {
          buffer = i.buffer ∙ ap (λ xs. some xs) (regroup before bytes rest after unread e);
          at_unread = ap pos (sym (length-append before bytes));
          up_to = i.up_to ∙ ap pos (total before bytes rest unread e);
        };
        log_is = refl;
      },
    )
