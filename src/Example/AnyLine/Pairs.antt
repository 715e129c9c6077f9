-- ===== src/Example/AnyLine/Pairs.antt =====
-- A round of the programs of examples/, when the host waits: what the next round begins with.
use florid_usb_protocols.Prelude.{
  ℕ, ◌+◌, ◌*◌, ◌-◌, ◌≤◌, ◌≡◌, refl, inl, inr, Bool, true, false, Option, none, some, List, arith,
  length,
}
use florid_usb_protocols.Platform.{Platform, IsPlatform}
use florid_usb_protocols.Rpl.{Rpl}
use florid_usb_protocols.Stack.{Stack, isr_feed}
use florid_usb_protocols.Stack.Receive.{IsHolding, write-IsHolding, read-IsHolding}
use florid_usb_protocols.Example.{request}
use florid_usb_protocols.Example.Device.{device}
use florid_usb_protocols.Example.Host.{host}
use florid_usb_protocols.Example.Loop.{Times, IsPaced, cycle, received, round}
use florid_usb_protocols.Example.Serves.{IsExchange}
use florid_usb_protocols.Example.Waiting.{IsWaiting, on_ack-IsWaiting}
use florid_usb_protocols.Example.Asking.{IsCalm, host_acked}
use florid_usb_protocols.Example.AnyLine.{
  Mail as MailOf, Device as DeviceOf, IsTurn as IsTurnOf, bytes_of, count, small-Mail, rests-IsTurn,
  asked-IsTurn,
}

module _ (P : Platform) (L : IsPlatform P) (R : Rpl) (tx joint asked : ℕ)
    (limits request_frame ack_frame response_frame : List ℕ)
    (x : IsExchange R tx joint limits request_frame ack_frame response_frame) where
  abbrev asking : List ℕ
  asking = request tx joint limits

  abbrev Mail : Option (List ℕ) → Type 0
  Mail = MailOf P L R tx joint asked limits request_frame ack_frame response_frame x

  abbrev Device : Option (List ℕ) → List (List ℕ) → Stack P R → Type 0
  Device = DeviceOf P L R tx joint asked limits request_frame ack_frame response_frame x

  abbrev IsTurn : List (List ℕ) → ℕ → Option (List ℕ) × Stack P R → Type 0
  IsTurn = IsTurnOf P L R tx joint asked limits request_frame ack_frame response_frame x

  module _ (line : ℕ → Bool × Bool) (a b : ℕ → Times) (paced : IsPaced 200000 a) where
    -- The host before round `i`: it waits, this is on the way to it, and its request is due.
    pub record IsHost (i retries deadline : ℕ) (mail : Option (List ℕ)) (h : Stack P R)
        : Type 0 where
      pub calm : IsCalm P R h
      pub waits : IsWaiting P L tx asking asked retries deadline h.session
      pub late : deadline ≤ (a i).now
      pub mailed : Mail mail
      pub holds :
          IsHolding P L R h.rx_ring
            (bytes_of P L R tx joint asked limits request_frame ack_frame response_frame x mail)

    -- Both, with a weight that each round makes less.
    pub record IsPair (i retries weight : ℕ) (h d : Stack P R) : Type 0 where
      pub mail : Option (List ℕ)
      pub fs : List (List ℕ)
      pub deadline : ℕ
      pub host : IsHost i retries deadline mail h
      pub device : Device mail fs d
      pub few : retries ≤ 3
      pub short : length fs ≤ retries + 1
      pub weighs :
          3 * (3 - retries)
            + length fs
            + count P L R tx joint asked limits request_frame ack_frame response_frame x mail
          ≤ weight

    fed-IsHost :
        (i retries deadline : ℕ) (f : List ℕ) (h : Stack P R)
        → IsHost i retries deadline none h
        → Mail (some f)
        → IsHost i retries deadline (some f) (isr_feed P R h f)
    unfolding isr_feed
    fed-IsHost i retries deadline f h v m = record {
      calm = record {
        idle = v.calm.idle;
        empty = v.calm.empty;
        transport = v.calm.transport;
        uncalled = v.calm.uncalled;
      };
      waits = v.waits;
      late = v.late;
      mailed = m;
      holds =
          write-IsHolding P L R h.rx_ring f v.holds
            (small-Mail P L R tx joint asked limits request_frame ack_frame response_frame x f m).1;
    }

    -- The end of a round: what the device has sent arrives or does not.
    joined :
        (l : Bool) (i retries deadline gain : ℕ) (h : Stack P R) (fs : List (List ℕ))
        → (out : Option (List ℕ) × Stack P R) → IsHost i retries deadline none h
        → IsTurn fs gain out
        → retries ≤ 3
        → length fs + (gain - 1) ≤ retries + 1
        → IsPair i retries (3 * (3 - retries) + length fs + gain) (received P R l out.0 h) out.1
    joined l i retries deadline gain h fs (none, d) v t few short = record {
      mail = none;
      fs = t.rest;
      deadline = deadline;
      host = v;
      device = t.device;
      few = few;
      short = omega (arith, t.shorter, short);
      weighs = omega (arith, t.fewer);
    }
    joined true i retries deadline gain h fs (some f, d) v t few short = record {
      mail = some f;
      fs = t.rest;
      deadline = deadline;
      host = fed-IsHost i retries deadline f h v t.mail;
      device = t.device;
      few = few;
      short = omega (arith, t.shorter, short);
      weighs = omega (arith, t.fewer);
    }
    joined false i retries deadline gain h fs (some f, d) v t few short = record {
      mail = none;
      fs = t.rest;
      deadline = deadline;
      host = v;
      device = elim t.device [
        | inl (fresh, e, none_queued) ↦ inl (fresh, refl, none_queued)
        | inr s ↦ inr s
      ];
      few = few;
      short = omega (arith, t.shorter, short);
      weighs = omega (arith, t.fewer);
    }

    -- A round in which the host sends the request.
    pub sent_on :
        (i retries deadline : ℕ) (mail : Option (List ℕ)) (fs : List (List ℕ))
        (h next d : Stack P R)
        → cycle P R (host P R) (a i) h ≡ (some request_frame, next)
        → IsHost (i + 1) retries deadline none next
        → Device mail fs d
        → retries ≤ 3
        → length fs ≤ retries
        → let y = round P R (line i) (a i) (b i) (h, d) in
          IsPair (i + 1) retries (3 * (3 - retries) + length fs + 2) y.0 y.1
    unfolding round
    sent_on i retries deadline mail fs h next d sends v dev few short = rw sends (go (line i).0)
      where
        heavier :
            {y z : Stack P R}
            → IsPair (i + 1) retries (3 * (3 - retries) + length fs + 0) y z
            → IsPair (i + 1) retries (3 * (3 - retries) + length fs + 2) y z
        heavier p = record {
          mail = p.mail;
          fs = p.fs;
          deadline = p.deadline;
          host = p.host;
          device = p.device;
          few = p.few;
          short = p.short;
          weighs = omega (arith, p.weighs);
        }

        go :
            (arrives : Bool)
            → let out =
                cycle P R (device P R) (b i) (received P R arrives (some request_frame) d) in
              IsPair
                (i + 1)
                retries
                (3 * (3 - retries) + length fs + 2)
                (received P R (line i).1 out.0 next)
                out.1
        go true =
            joined (line i).1 (i + 1) retries deadline 2 next fs _ v
              (asked-IsTurn P L R tx joint asked limits request_frame ack_frame response_frame x
                (b i) mail fs d dev (omega (arith, short, few)))
              few (omega (arith, short))
        go false = heavier (
            joined (line i).1 (i + 1) retries deadline 0 next fs _ v
              (rests-IsTurn P L R tx joint asked limits request_frame ack_frame response_frame x
                (b i) mail fs d dev)
              few (omega (arith, short)))

    -- A round in which the host reads an acknowledgement.
    pub acked_on :
        (i retries deadline : ℕ) (fs : List (List ℕ)) (h d : Stack P R)
        → IsHost i retries deadline (some ack_frame) h
        → Device (some ack_frame) fs d
        → retries ≤ 3
        → length fs ≤ retries + 1
        → let y = round P R (line i) (a i) (b i) (h, d) in
          IsPair (i + 1) retries (3 * (3 - retries) + length fs + 0) y.0 y.1
    unfolding round
    acked_on i retries deadline fs h d v dev few short =
        rw
          (host_acked P L R tx joint asked limits request_frame ack_frame response_frame x (a i) h
            retries deadline v.calm v.waits v.holds (paced.packet i))
          (joined (line i).1 (i + 1) retries (at + 200000) 0 _ fs _
            (record {
              calm = record {
                idle = v.calm.idle;
                empty = v.calm.empty;
                transport = v.calm.transport;
                uncalled = v.calm.uncalled;
              };
              waits = on_ack-IsWaiting P L tx asking asked h.session retries deadline at v.waits;
              late = paced.packet_late i (length ack_frame - 1) 0;
              mailed = tt;
              holds = (read-IsHolding P L R h.rx_ring ack_frame v.holds).1;
            })
            (rests-IsTurn P L R tx joint asked limits request_frame ack_frame response_frame x (b i)
              (some ack_frame) fs d dev)
            few (omega (arith, short)))
      where
        at : ℕ
        at = (a i).packets (length ack_frame - 1) 0
