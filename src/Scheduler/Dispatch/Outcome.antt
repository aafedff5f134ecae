-- ===== src/Scheduler/Dispatch/Outcome.antt =====
-- What a tick puts on the wire.
use peashape.Prelude.{
  ℕ, suc, ◌≡◌, refl, ap, ◌∙◌, min, List, [], ◌∷◌, ◌==◌, not, length, contains, Distinct, arith,
  true, ==_iff, contains-filter_by,
}
use peashape.Config.{SocketAddr, Bytes}
use peashape.Scheduler.Pick.Targets.{IsPick}
use peashape.Scheduler.Dispatch.{others}
use peashape.Scheduler.Dispatch.Sends.{receivers, SentSized}

-- What goes out in a tick: `n` frames of `size` bytes, to distinct connected peers.
pub record IsTick (n size : ℕ) (peers : List SocketAddr) (out : List (SocketAddr × Bytes))
    : Type 0 where
  pub count : length out ≡ n
  pub sized : SentSized size out
  pub distinct : Distinct (receivers out)
  pub connected : (a : SocketAddr) → contains (receivers out) a ≡ true → contains peers a ≡ true

pub length-receivers : (out : List (SocketAddr × Bytes)) → length (receivers out) ≡ length out
length-receivers [] = refl
length-receivers (s ∷ out) = ap suc (length-receivers out)

pub IsPick-IsTick :
    (n size : ℕ) (last peers chosen : List SocketAddr) (out : List (SocketAddr × Bytes))
    → IsPick n last peers chosen
    → receivers out ≡ chosen
    → SentSized size out
    → IsTick (min n (length peers)) size peers out
IsPick-IsTick n size last peers chosen out pick r sized = record {
  count = omega (arith, ap length r, length-receivers out, pick.size);
  sized = sized;
  distinct = rw r pick.distinct;
  connected = rw r pick.within;
}

pub IsTick-count :
    {k n size : ℕ} {peers : List SocketAddr} {out : List (SocketAddr × Bytes)}
    → k ≡ n
    → IsTick k size peers out
    → IsTick n size peers out
IsTick-count e t = record {
  count = t.count ∙ e;
  sized = t.sized;
  distinct = t.distinct;
  connected = t.connected;
}

-- A frame to one peer and the frames to others.
pub IsTick-cons :
    (n size : ℕ) (ps : List SocketAddr) (target : SocketAddr) (b : Bytes)
    (rest : List (SocketAddr × Bytes))
    → length b ≡ size
    → contains ps target ≡ true
    → IsTick n size (others target ps) rest
    → IsTick (suc n) size ps ((target, b) ∷ rest)
IsTick-cons n size ps target b rest h c t = record {
  count = ap suc t.count;
  sized = (h, t.sized);
  distinct = (
    ground (arith, t.connected target, contains-filter_by (λ p. not (p == target)) ps target),
    t.distinct,
  );
  connected = λ a i.
      ground
        (arith, t.connected a, contains-filter_by (λ p. not (p == target)) ps a, ==_iff a target);
}
