-- ===== src/Net/Url/Parts.antt =====
-- The parts of the URLs that `parse_url` accepts.
use stok.Base.{
  ℕ, zero, suc, ◌+◌, ◌-◌, ◌^◌, ◌≤◌, ◌≡◌, refl, Bool, true, false, ◌||◌, Option, none, some, [], ◌∷◌,
  ltb, ◌==◌, if◌then◌else◌, length, take, drop, get_or, branch, arith,
}
use mathlib.Core.Option
use mathlib.Core.Path.{subst}
use stok.Util.Ascii.{Bytes, codes, istarts_with, trim, find_byte, parse_unsigned}
use stok.Net.Url.{
  Url, parse_url, up_to, find_slash, find_last, target_from, target_of, port_from, host_port,
  present, finished, after_scheme,
}

pub record IsSendable (u : Url) : Type 0 where
  pub port_from : 1 ≤ u.port
  pub port_to : u.port ≤ 65535
  pub path : get_or u.target 0 0 ≡ b'/'
  pub no_fragment : find_byte b'#' u.target ≡ none

-- A text that is cut at its first byte `b`, which is not there any more.
cut_at :
    (b c : ℕ) (t : Bool) (s : Bytes) (o : Option ℕ)
    → (c == b) ≡ t
    → find_byte b s ≡ o
    → find_byte b (up_to s o) ≡ none
    → find_byte b (up_to (c ∷ s) (if t then some 0 else Option.map suc o)) ≡ none
unfolding find_byte
cut_at b c true s o e f h = refl
cut_at b c false s none e f h = rw (e, f) refl
cut_at b c false s (some i) e f h = rw (e, h) refl

up_to-find_byte : (b : ℕ) (s : Bytes) → find_byte b (up_to s (find_byte b s)) ≡ none
unfolding find_byte
up_to-find_byte b [] = refl
up_to-find_byte b (c ∷ s) = cut_at b c (c == b) s (find_byte b s) refl refl (up_to-find_byte b s)

not_first :
    (t : Bool) (o : Option ℕ) → t ≡ false → (if t then some 0 else Option.map suc o) ≡ some 0 → ⊥
not_first true o e h = cc
not_first false none e h = cc
not_first false (some i) e h = ground arith

head_kept :
    (s : Bytes) (o : Option ℕ)
    → find_byte b'#' s ≡ o
    → get_or s 0 0 ≡ b'/'
    → get_or (up_to s o) 0 0 ≡ b'/'
unfolding find_byte
head_kept s none e h = h
head_kept [] (some i) e h = ground arith
head_kept (c ∷ s) (some zero) e h =
    absurd (not_first (c == b'#') (find_byte b'#' s) (ground arith) e)
head_kept (c ∷ s) (some (suc i)) e h = h

head_of :
    (t : Bool) (c : ℕ) (s : Bytes) (o : Option ℕ)
    → ((c == b'/') || (c == b'?')) ≡ t
    → get_or (target_from s o) 0 0 ≡ b'/'
    → get_or (target_from (c ∷ s) (if t then some 0 else Option.map suc o)) 0 0 ≡ b'/'
head_of true c s o e h =
    branch (λ x. get_or x 0 0 ≡ b'/') (c == b'?') (λ _. refl) (λ f. ground arith)
head_of false c s none e h = refl
head_of false c s (some i) e h = h

target_from-find_slash : (s : Bytes) → get_or (target_from s (find_slash s)) 0 0 ≡ b'/'
unfolding find_slash
target_from-find_slash [] = refl
target_from-find_slash (c ∷ s) =
    head_of ((c == b'/') || (c == b'?')) c s (find_slash s) refl (target_from-find_slash s)

-- A URL, if there is one.
abbrev AreSendable : Option Url → Type 0
AreSendable none = 0 ≤ 1
AreSendable (some u) = IsSendable u

abbrev ArePorts : Option (Bytes × ℕ) → Type 0
ArePorts none = 0 ≤ 1
ArePorts (some (host, p)) = (1 ≤ p) × (p ≤ 65535)

port_from-ArePorts : (host : Bytes) (p : ℕ) (o : Option ℕ) → ArePorts (port_from host p o)
port_from-ArePorts host p none = omega arith
port_from-ArePorts host p (some q) =
    branch ArePorts ((q == 0) || ltb 65535 q) (λ _. omega arith) (λ e. (ground arith, ground arith))

host_port-ArePorts :
    (a : Bytes) (p : ℕ) (colon bracket : Option ℕ)
    → 1 ≤ p
    → p ≤ 65535
    → ArePorts (host_port a p colon bracket)
host_port-ArePorts a p none bracket h k = (h, k)
host_port-ArePorts a p (some i) none h k =
    port_from-ArePorts (take i a) p (parse_unsigned (2 ^ 32 - 1) (drop (i + 1) a))
host_port-ArePorts a p (some i) (some j) h k = (h, k)

finished-AreSendable :
    (tls : Bool) (s : Bytes) (o : Option (Bytes × ℕ))
    → ArePorts o
    → AreSendable (finished tls (target_of s (find_slash s)) o)
unfolding target_of
finished-AreSendable tls s none h = omega arith
finished-AreSendable tls s (some (host, p)) h =
    let t = target_from s (find_slash s) in
    record {
      port_from = h.0;
      port_to = h.1;
      path = head_kept t (find_byte b'#' t) refl (target_from-find_slash s);
      no_fragment = up_to-find_byte b'#' t;
    }

after_scheme-AreSendable :
    (tls : Bool) (p : ℕ) (s : Bytes) → 1 ≤ p → p ≤ 65535 → AreSendable (after_scheme tls p s)
after_scheme-AreSendable tls p s h k =
    let a = up_to s (find_slash s) in
    branch AreSendable (length a == 0) (λ _. omega arith)
      (λ _.
        branch AreSendable (present (find_byte b'@' a)) (λ _. omega arith)
          (λ _.
            finished-AreSendable tls s (host_port a p (find_last b':' a) (find_byte b']' a))
              (host_port-ArePorts a p (find_last b':' a) (find_byte b']' a) h k)))

parse_url-AreSendable : (s : Bytes) → AreSendable (parse_url s)
unfolding parse_url
parse_url-AreSendable s =
    branch AreSendable (istarts_with (trim s) (codes "https://"))
      (λ _. after_scheme-AreSendable true 443 (drop 8 (trim s)) (omega arith) (omega arith))
      (λ _.
        branch AreSendable (istarts_with (trim s) (codes "http://"))
          (λ _. after_scheme-AreSendable false 80 (drop 7 (trim s)) (omega arith) (omega arith))
          (λ _. omega arith))

-- A URL that is accepted has a port from 1 to 65535 and a target that begins with a slash and has no fragment.
pub parse_url-IsSendable : (s : Bytes) (u : Url) → parse_url s ≡ some u → IsSendable u
parse_url-IsSendable s u e = subst AreSendable e (parse_url-AreSendable s)
