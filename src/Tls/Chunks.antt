-- ===== src/Tls/Chunks.antt =====
-- src/win32/ssl_socket.c: the chunks of a send, and what a send that has ended has sent.
use mathlib.Core.List.{flatten}
use xrossfire.Base.{
  ℕ, zero, suc, ◌-◌, ◌<◌, ◌≤◌, ◌≡◌, ◌≢◌, refl, ap, sym, subst, ◌∙◌, true, false, Bool, Option, none,
  List, Returns, [], ◌∷◌, ◌++◌, append_assoc, ◌==◌, take, length, All, Bool-cases, inl, inr, arith,
}
use xrossfire.Base.Int.{pos, ◌-ℤ◌, ltb_ℤ}
use xrossfire.Tls.{Log, Reads}
use xrossfire.Tls.Send.{SendContext, get_chunk_length, seal}

abbrev pub sending : List ℕ → ℕ → SendContext
sending buffer n = record { send_buffer = buffer; send_length = pos n }

pub not_zero : (n : ℕ) → (n == 0) ≡ false → n ≢ 0
not_zero n h = λ e. ground arith

-- The length of the next chunk.
pub record Portion (maximum n k : ℕ) : Type 0 where
  pub is_next : get_chunk_length maximum (pos n) ≡ pos k
  pub within : k ≤ n
  pub fits : k ≤ maximum
  pub some_bytes : 0 < maximum → 0 < n → 0 < k
  pub left : pos n -ℤ pos k ≡ pos (n - k)

pub get_chunk_length-Portion : (maximum n : ℕ) → (k : ℕ) × Portion maximum n k
unfolding ◌-ℤ◌
get_chunk_length-Portion maximum n = elim (Bool-cases (ltb_ℤ (pos maximum) (pos n))) [
  | inl e ↦ (
    maximum,
    record {
      is_next = rw e refl;
      within = ground arith;
      fits = omega arith;
      some_bytes = λ h h'. h;
      left = ground arith;
    },
  )
  | inr e ↦ (
    n,
    record {
      is_next = rw e refl;
      within = omega arith;
      fits = ground arith;
      some_bytes = λ h h'. h';
      left = ground arith;
    },
  )
]

pub shorter : (n k fuel : ℕ) → n ≤ fuel → 0 < fuel → (0 < n → 0 < k) → n - k < fuel
shorter zero k fuel h alive some_bytes = omega arith
shorter (suc n) k fuel h alive some_bytes =
    let positive = some_bytes (omega arith) in omega (arith, positive)

pub above_zero : (m : ℕ) → ltb_ℤ (pos 0) (pos (suc m)) ≡ true
above_zero m = ground arith

-- The log at the end: the caller has been notified, and so many others hold its operation.
abbrev pub ended : ℕ → ℕ → Log → Log
ended error others log = record log {
  notified = error ∷ log.notified;
  freed_contexts = suc log.freed_contexts;
  freed_buffers = suc log.freed_buffers;
  holders = others;
  called = true;
  linked = false;
}

module _ (maximum : ℕ) (encrypt : List (List ℕ) → List ℕ → ℕ × List ℕ) where
  -- The frames after those of some chunks.
  abbrev pub seal_all : List (List ℕ) → List (List ℕ) → List (List ℕ)
  seal_all frames [] = frames
  seal_all frames (chunk ∷ chunks) = seal_all (seal maximum encrypt frames chunk) chunks

  -- The send has ended, with an error or 0, after so many chunks.
  pub record Ended (others n : ℕ) (buffer : List ℕ) (log : Log) (out : Log × Option SendContext)
      : Type 0 where
    pub error : ℕ
    pub chunks : List (List ℕ)
    pub rest : List ℕ
    pub ends : out ≡ (ended error others (record log { frames = seal_all log.frames chunks }), none)
    pub parts : flatten chunks ++ rest ≡ take n buffer
    pub whole : error ≡ 0 → rest ≡ []
    pub small : All (λ chunk. length chunk ≤ maximum) chunks

  -- How a send comes out, with so many others who hold the caller's operation: if there are none,
  -- and it has been started, what ends it frees that operation, and then writes to it.
  abbrev pub Sends : ℕ → Bool → ℕ → List ℕ → Log → Option (Log × Option SendContext) → Type 0
  Sends zero true n buffer log o = o ≡ none
  Sends zero false n buffer log o = Returns o (Ended zero n buffer log)
  Sends (suc others) started n buffer log o = Returns o (Ended (suc others) n buffer log)

  pub stopped :
      (others n error : ℕ) (buffer : List ℕ) (log : Log)
      → (error ≡ 0 → take n buffer ≡ [])
      → Ended others n buffer log (ended error others log, none)
  unfolding flatten
  stopped others n error buffer log h = record {
    error = error;
    chunks = [];
    rest = take n buffer;
    ends = refl;
    parts = refl;
    whole = h;
    small = tt;
  }

  one_more :
      (others n k : ℕ) (buffer message rest : List ℕ) (log : Log) (out : Log × Option SendContext)
      → k ≤ maximum
      → Reads k n buffer message rest
      → Ended others
          (n - k)
          rest
          (record log { frames = seal maximum encrypt log.frames message })
          out
      → Ended others n buffer log out
  unfolding flatten
  one_more others n k buffer message rest log out h i e = record {
    error = e.error;
    chunks = message ∷ e.chunks;
    rest = e.rest;
    ends = e.ends;
    parts =
        append_assoc message (flatten e.chunks) e.rest
        ∙ ap (λ xs. message ++ xs) e.parts
        ∙ sym i.parts;
    whole = e.whole;
    small = (subst (λ j. j ≤ maximum) (sym i.size) h, e.small);
  }

  pub one_more-Sends :
      (others n k : ℕ) (buffer message rest : List ℕ) (log : Log)
      (o : Option (Log × Option SendContext))
      → k ≤ maximum
      → Reads k n buffer message rest
      → Sends others true
          (n - k)
          rest
          (record log { frames = seal maximum encrypt log.frames message })
          o
      → Sends others true n buffer log o
  one_more-Sends zero n k buffer message rest log o h i e = e
  one_more-Sends (suc others) n k buffer message rest log o h i (out, ran, e) =
      (out, ran, one_more (suc others) n k buffer message rest log out h i e)
