-- ===== src/TcpConnection/Outbox.antt =====
-- What Send promises: the messages accepted so far, how many of them have been written, and whether
-- more are taken. The write queue of network/session/TcpConnection.cpp against this.
use own_game_server.Prelude.{
  ℕ, zero, suc, ◌≤◌, ◌≡◌, refl, ap, Bool, true, false, not, none, some, List, [], ◌∷◌, ◌++◌, arith,
  if◌then◌else◌, take, drop, length,
}
use own_game_server.TcpConnection.{
  TcpConnection, Call, start_it, close_it, send_it, Event, call, wrote, read, is_empty,
}

pub record Outbox : Type 0 where
  pub accepted : List (List ℕ)
  pub finished : ℕ
  pub is_open : Bool

abbrev pub empty_outbox : Outbox
empty_outbox = record { accepted = []; finished = 0; is_open = true }

-- The buffers that the socket has been given: those written, and the next one.
unfoldable pub given : Outbox → List (List ℕ)
given o = take (suc o.finished) o.accepted

unfoldable pub shut : Outbox → Outbox
shut o = record o { is_open = false }

unfoldable pub accept : Call → Outbox → Outbox
unfolding shut
accept start_it o = o
accept close_it o = shut o
accept (send_it bytes) o = if o.is_open then record o { accepted = o.accepted ++ bytes ∷ [] } else o

unfoldable pub accept_all : List Call → Outbox → Outbox
unfolding accept
accept_all [] o = o
accept_all (k ∷ ks) o = accept_all ks (accept k o)

-- `listens` says that there is a message callback.
unfoldable pub observe : Bool → Event → Outbox → Outbox
unfolding accept_all accept shut
observe listens (call k) o = accept k o
observe listens (wrote true) o = shut o
observe listens (wrote false) o = record o { finished = suc o.finished }
observe listens (read none ks) o = shut o
observe listens (read (some bytes) ks) o = if listens then accept_all ks o else o

unfoldable pub observe_all : Bool → List Event → Outbox → Outbox
unfolding observe
observe_all listens [] o = o
observe_all listens (e ∷ es) o = observe_all listens es (observe listens e o)

-- The connection `c` holds the outbox `o`.
pub record Holds (listens : Bool) (c : TcpConnection) (o : Outbox) : Type 0 where
  pub listening : c.has_message_callback ≡ listens
  pub same_end : c.closed ≡ not o.is_open
  pub in_order : c.writes ≡ given o
  pub waiting : c.closed ≡ false → c.write_queue ≡ drop o.finished o.accepted
  pub dropped : c.closed ≡ true → c.write_queue ≡ []
  pub counted : o.finished ≤ length o.accepted

module _ {ℓ} {A : Type ℓ} where
  pub take-append-end :
      (n : ℕ) (xs : List A) (x : A)
      → n ≤ length xs
      → drop n xs ≡ []
      → take (suc n) (xs ++ x ∷ []) ≡ take (suc n) xs ++ x ∷ []
  take-append-end zero [] x h e = refl
  take-append-end zero (y ∷ ys) x h e = cc
  take-append-end (suc n) [] x h e = absurd (omega arith)
  take-append-end (suc n) (y ∷ ys) x h e =
      ap (λ (t : List A). y ∷ t) (take-append-end n ys x (omega arith) e)

  pub take-append-inner :
      (n : ℕ) (xs : List A) (x : A)
      → is_empty (drop n xs) ≡ false
      → take (suc n) (xs ++ x ∷ []) ≡ take (suc n) xs
  take-append-inner zero [] x e = cc
  take-append-inner zero (z ∷ zs) x e = refl
  take-append-inner (suc n) [] x e = cc
  take-append-inner (suc n) (z ∷ zs) x e = ap (λ (t : List A). z ∷ t) (take-append-inner n zs x e)

  pub drop-append-le :
      (n : ℕ) (xs ys : List A) → n ≤ length xs → drop n (xs ++ ys) ≡ drop n xs ++ ys
  drop-append-le zero xs ys h = refl
  drop-append-le (suc n) [] ys h = absurd (omega arith)
  drop-append-le (suc n) (x ∷ xs) ys h = drop-append-le n xs ys (omega arith)

  -- One element further on.
  pub drop_next :
      (n : ℕ) (xs : List A) (y : A) (ys : List A)
      → drop n xs ≡ y ∷ ys
      → (drop (suc n) xs ≡ ys) × (suc n ≤ length xs)
  drop_next zero [] y ys e = cc
  drop_next zero (x ∷ xs) y ys e = (cc, omega arith)
  drop_next (suc n) [] y ys e = cc
  drop_next (suc n) (x ∷ xs) y ys e =
      ((drop_next n xs y ys e).0, omega (arith, (drop_next n xs y ys e).1))

  pub take_next :
      (n : ℕ) (xs : List A) (y : A) (ys : List A)
      → drop n xs ≡ y ∷ ys
      → take (suc n) xs ≡ take n xs ++ y ∷ []
  take_next zero [] y ys e = cc
  take_next zero (x ∷ xs) y ys e = cc
  take_next (suc n) [] y ys e = cc
  take_next (suc n) (x ∷ xs) y ys e = ap (λ (t : List A). x ∷ t) (take_next n xs y ys e)

  pub take_end : (n : ℕ) (xs : List A) → drop n xs ≡ [] → take (suc n) xs ≡ take n xs
  take_end zero [] e = refl
  take_end zero (x ∷ xs) e = cc
  take_end (suc n) [] e = refl
  take_end (suc n) (x ∷ xs) e = ap (λ (t : List A). x ∷ t) (take_end n xs e)
