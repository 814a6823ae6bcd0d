-- ===== src/Room/Seats.antt =====
-- business/GameRoom/GameRoom.cpp and the player objects: the members of a room are objects that exist,
-- and objects that are made later do not disturb them.
use own_game_server.Prelude.{ℕ, ◌≡◌, ◌<◌, ◌≤◌, refl, some, List, [], ◌∷◌, ◌++◌, arith}
use own_game_server.Assoc.{nat_eq}
use own_game_server.Group.{find_in, erase_first, add_member, remove_member}
use own_game_server.Group.Members.{Distinct}
use own_game_server.Player.{Heap, write, player_id_at, player_id_at-write, enter_room}
use own_game_server.Room.{GameRoom, GameRoomInfo, join_group, join_room, leave_room, new_room}
use own_game_server.Room.Membership.{
  IsOrderly, join_room-IsOrderly, leave_room-IsOrderly, new_room-IsOrderly,
}

-- The addresses of objects that have been made.
abbrev pub Made : ℕ → List ℕ → Type 0
Made n [] = Unit
Made n (a ∷ as') = (a < n) × Made n as'

-- Every object that was there is there, with its id.
pub record Grows (h h' : Heap) : Type 0 where
  pub later : h.next ≤ h'.next
  pub named : (a : ℕ) → a < h.next → player_id_at h' a ≡ player_id_at h a

pub record IsSeated (h : Heap) (r : GameRoom) : Type 0 where
  pub orderly : IsOrderly h r
  pub made : Made h.next r.group.members

Made-le : (n n' : ℕ) (as' : List ℕ) → n ≤ n' → Made n as' → Made n' as'
Made-le n n' [] le m = tt
Made-le n n' (a ∷ as') le m = (omega (arith, m.0), Made-le n n' as' le m.1)

Made-append : (n a : ℕ) (as' : List ℕ) → a < n → Made n as' → Made n (as' ++ a ∷ [])
Made-append n a [] lt m = (lt, tt)
Made-append n a (x ∷ as') lt m = (m.0, Made-append n a as' lt m.1)

Made-erase :
    (n : ℕ) (key : ℕ → ℕ) (k : ℕ) (as' : List ℕ) → Made n as' → Made n (erase_first key k as')
unfolding erase_first
Made-erase n key k [] m = tt
Made-erase n key k (x ∷ as') m = ground (arith, Made-erase n key k as' m.1)

-- Keys that agree on the members find the same.
find_in-agree :
    (n : ℕ) (key key' : ℕ → ℕ) (k : ℕ) (as' : List ℕ)
    → ((a : ℕ) → a < n → key' a ≡ key a)
    → Made n as'
    → find_in key' k as' ≡ find_in key k as'
unfolding find_in
find_in-agree n key key' k [] same m = refl
find_in-agree n key key' k (x ∷ as') same m =
    rw (same x m.0, find_in-agree n key key' k as' same m.1)

Distinct-agree :
    (n : ℕ) (key key' : ℕ → ℕ) (as' : List ℕ)
    → ((a : ℕ) → a < n → key' a ≡ key a)
    → Made n as'
    → Distinct key as'
    → Distinct key' as'
Distinct-agree n key key' [] same m d = tt
Distinct-agree n key key' (x ∷ as') same m d = (
  rw (same x m.0, find_in-agree n key key' (key x) as' same m.1) d.0,
  Distinct-agree n key key' as' same m.1 d.1,
)

pub IsSeated-Grows : (h h' : Heap) (r : GameRoom) → Grows h h' → IsSeated h r → IsSeated h' r
IsSeated-Grows h h' r g s = record {
  orderly = record {
    distinct =
        Distinct-agree h.next (player_id_at h) (player_id_at h') r.group.members g.named s.made
          s.orderly.distinct;
    bounded = s.orderly.bounded;
  };
  made = Made-le h.next h'.next r.group.members g.later s.made;
}

join_room-next : (a : ℕ) (h : Heap) (r : GameRoom) → (join_room (some a) h r).0.next ≡ h.next
unfolding join_room write
join_room-next a h r = ground arith

pub join_room-Grows : (a : ℕ) (h : Heap) (r : GameRoom) → Grows h (join_room (some a) h r).0
unfolding join_room
join_room-Grows a h r = record {
  later = omega (arith, join_room-next a h r);
  named =
      λ b lt. ground (arith, player_id_at-write h a b (enter_room r.info.room_id (h.at a)) refl);
}

pub join_room-IsSeated :
    (a : ℕ) (h : Heap) (r : GameRoom)
    → a < h.next
    → IsSeated h r
    → IsSeated (join_room (some a) h r).0 (join_room (some a) h r).1
unfolding join_room join_group add_member write
join_room-IsSeated a h r lt s = record {
  orderly = join_room-IsOrderly (some a) h r s.orderly;
  made = ground (arith, Made-append h.next a r.group.members lt s.made, s.made);
}

pub leave_room-IsSeated :
    (id : ℕ) (h : Heap) (r : GameRoom) → IsSeated h r → IsSeated h (leave_room id h r).0
unfolding leave_room remove_member
leave_room-IsSeated id h r s = record {
  orderly = leave_room-IsOrderly id h r s.orderly;
  made = ground (arith, Made-erase h.next (player_id_at h) id r.group.members s.made, s.made);
}

pub new_room-IsSeated : (h : Heap) (info : GameRoomInfo) → IsSeated h (new_room info)
unfolding new_room
new_room-IsSeated h info = record { orderly = new_room-IsOrderly h info; made = tt }
