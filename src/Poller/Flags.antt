-- ===== src/Poller/Flags.antt =====
-- The flags of an event as a set.
use Prim.Native.Nat.{bit_and, bit_or}
use my_rtsp_server.Prelude.{
  ℕ, ◌+◌, ◌-◌, ◌*◌, ◌^◌, ◌≡◌, refl, ap, ◌∙◌, Bool, true, false, ◌&&◌, if◌then◌else◌, ◌==◌, ==_iff,
  arith,
}
use my_rtsp_server.Poller.{
  IoEvent, enable, disable, has, epoll_events, epoll_in, epoll_out, epoll_err, event_read,
  event_write, event_error,
}

pub data Flag : Type 0 where
  reading writing failing : Flag

abbrev pub bit : Flag → ℕ
bit reading = event_read
bit writing = event_write
bit failing = event_error

-- The set of the flags that are on.
pub record Handles : Type 0 where
  pub read : Bool
  pub write : Bool
  pub error : Bool

abbrev pub digit : Bool → ℕ
digit true = 1
digit false = 0

abbrev pub word : Handles → ℕ
word h = digit h.read + digit h.write * 2 + digit h.error * 4

abbrev pub put : Flag → Bool → Handles → Handles
put reading b h = record h { read = b }
put writing b h = record h { write = b }
put failing b h = record h { error = b }

abbrev pub get : Flag → Handles → Bool
get reading h = h.read
get writing h = h.write
get failing h = h.error

abbrev handles : Bool → Bool → Bool → Handles
handles r w x = record { read = r; write = w; error = x }

-- Whether a test holds of every set.
abbrev each : (Bool → Bool) → Bool
each test = test true && test false

each_lem : (test : Bool → Bool) (b : Bool) → each test ≡ true → test b ≡ true
each_lem test true h = ground arith
each_lem test false h = ground arith

abbrev every : (Handles → Bool) → Bool
every test = each (λ r. each (λ w. each (λ x. test (handles r w x))))

every_lem : (test : Handles → Bool) (h : Handles) → every test ≡ true → test h ≡ true
every_lem test h all =
    each_lem (λ x. test (handles h.read h.write x)) h.error
      (each_lem (λ w. each (λ x. test (handles h.read w x))) h.write
        (each_lem (λ r. each (λ w. each (λ x. test (handles r w x)))) h.read all))

-- Two numbers that depend on a set.
same : (f g : Handles → ℕ) (h : Handles) → every (λ h. f h == g h) ≡ true → f h ≡ g h
same f g h all = (==_iff (f h) (g h)).0 (every_lem (λ h. f h == g h) h all)

digit-get : (b c : Bool) → digit b ≡ digit c → b ≡ c
digit-get true true e = refl
digit-get true false e = absurd (omega arith)
digit-get false true e = absurd (omega arith)
digit-get false false e = refl

or_word : (f : Flag) (h : Handles) → bit_or (word h) (bit f) ≡ word (put f true h)
or_word reading h = same (λ h. bit_or (word h) 1) (λ h. word (put reading true h)) h refl
or_word writing h = same (λ h. bit_or (word h) 2) (λ h. word (put writing true h)) h refl
or_word failing h = same (λ h. bit_or (word h) 4) (λ h. word (put failing true h)) h refl

and_word : (f : Flag) (h : Handles) → bit_and (word h) (2 ^ 32 - 1 - bit f) ≡ word (put f false h)
and_word reading h =
    same (λ h. bit_and (word h) (2 ^ 32 - 2)) (λ h. word (put reading false h)) h refl
and_word writing h =
    same (λ h. bit_and (word h) (2 ^ 32 - 3)) (λ h. word (put writing false h)) h refl
and_word failing h =
    same (λ h. bit_and (word h) (2 ^ 32 - 5)) (λ h. word (put failing false h)) h refl

has-word : (f : Flag) (h : Handles) → has (bit f) (word h) ≡ get f h
has-word reading h =
    digit-get _ _ (same (λ h. digit (has 1 (word h))) (λ h. digit (get reading h)) h refl)
has-word writing h =
    digit-get _ _ (same (λ h. digit (has 2 (word h))) (λ h. digit (get writing h)) h refl)
has-word failing h =
    digit-get _ _ (same (λ h. digit (has 4 (word h))) (λ h. digit (get failing h)) h refl)

-- The mask that `epoll` is given for a set.
abbrev pub epoll_word : Handles → ℕ
epoll_word h = digit h.read * epoll_in + digit h.write * epoll_out + digit h.error * epoll_err

abbrev mask : ℕ → ℕ
mask v =
    bit_or
      (bit_or (if has event_read v then epoll_in else 0)
        (if has event_write v then epoll_out else 0))
      (if has event_error v then epoll_err else 0)

-- Of an event whose word stands for a set of flags, enabling adds a flag to the set, disabling
-- takes it out, the tests tell which flags it has, and the mask for `epoll` is that of the set.
pub enable-disable :
    (f : Flag) (h : Handles) (e : IoEvent)
    → e.event ≡ word h
    → ((enable (bit f) e).event ≡ word (put f true h))
      × ((disable (bit f) e).event ≡ word (put f false h))
      × (has (bit f) e.event ≡ get f h)
      × (epoll_events e ≡ epoll_word h)
unfolding enable disable epoll_events
enable-disable f h e w = (
  ap (λ v. bit_or v (bit f)) w ∙ or_word f h,
  ap (λ v. bit_and v (2 ^ 32 - 1 - bit f)) w ∙ and_word f h,
  ap (has (bit f)) w ∙ has-word f h,
  ap mask w ∙ same (λ h. mask (word h)) epoll_word h refl,
)
