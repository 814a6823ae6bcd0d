-- ===== src/ReqHandler/Wire.antt =====
-- The bytes of a login request and of its response in business/ReqHandler.cpp.
use own_game_server.Prelude.{
  ℕ, zero, suc, ◌+◌, ◌-◌, ◌%◌, ◌≤◌, ◌<◌, ◌≡◌, ◌∙◌, ◌↔◌, refl, sym, ap, Bool, true, false, Option,
  none, some, List, [], ◌∷◌, ◌++◌, arith, length, length-append, take, drop, take-append,
  drop-append, length-drop, length-take, get_or, ltb, le→ltb, if◌then◌else◌, bytes_of, get32,
}
use mathlib.Core.List.{append-nil}
use own_game_server.Messages.{DbLoginReq}
use own_game_server.ReqHandler.{
  read_bytes, read_sized, read_login, after_user_name, with_password, response_payload,
  validate_login,
}

-- What a client sends: each text behind a byte with its size.
abbrev pub sized : List ℕ → List ℕ
sized text = length text % 256 ∷ text

pub read_bytes-append : (xs ys : List ℕ) → read_bytes (length xs) (xs ++ ys) ≡ some (xs, ys)
unfolding read_bytes
read_bytes-append xs ys =
    rw
      (
        le→ltb (length (xs ++ ys)) (length xs) (omega (arith, length-append xs ys)),
        take-append (length xs) xs ys refl,
        drop-append (length xs) xs ys refl,
      )
      refl

read_bytes_all : (n : ℕ) (xs : List ℕ) → n ≡ length xs → read_bytes n xs ≡ some (xs, [])
read_bytes_all n xs e =
    ap (λ (k : ℕ). read_bytes k xs) e
    ∙ ap (λ (ys : List ℕ). read_bytes (length xs) ys) (sym (append-nil xs))
    ∙ read_bytes-append xs []

read_bytes-length :
    (n : ℕ) (xs text rest : List ℕ) → read_bytes n xs ≡ some (text, rest) → length text ≡ n
unfolding read_bytes
read_bytes-length n xs text rest e = go (ltb (length xs) n) refl e
  where
    go :
        (b : Bool)
        → ltb (length xs) n ≡ b
        → if◌then◌else◌ {A = Option (List ℕ × List ℕ)} b none (some (take n xs, drop n xs))
          ≡ some (text, rest)
        → length text ≡ n
    go true f h = cc
    go false f h = ground (arith, length-take n xs, h)

pub read_sized-sized :
    (text rest : List ℕ) → length text < 256 → read_sized (sized text ++ rest) ≡ some (text, rest)
unfolding read_sized
read_sized-sized text rest small =
    ap (λ (n : ℕ). read_bytes n (text ++ rest)) (omega arith) ∙ read_bytes-append text rest

-- Whatever follows it, a request with a name and a password of less than 256 bytes each is read as
-- that name and that password.
pub read_login-sized :
    (user_name password rest : List ℕ)
    → length user_name < 256
    → length password < 256
    → read_login (sized user_name ++ (sized password ++ rest))
      ≡ some (record { user_name = user_name; password = password })
unfolding read_login after_user_name
read_login-sized user_name password rest n p =
    ap after_user_name (read_sized-sized user_name (sized password ++ rest) n)
    ∙ (unfold after_user_name in ap (with_password user_name) (read_sized-sized password rest p))

read_bytes-none : (n : ℕ) (bytes : List ℕ) → (read_bytes n bytes ≡ none) ↔ (length bytes < n)
unfolding read_bytes
read_bytes-none n bytes = ground arith

get_or-drop : (n : ℕ) (xs : List ℕ) → get_or (drop n xs) 0 0 ≡ get_or xs n 0
get_or-drop zero xs = refl
get_or-drop (suc n) [] = refl
get_or-drop (suc n) (x ∷ xs) = get_or-drop n xs

read_sized-none :
    (bytes : List ℕ) → (read_sized bytes ≡ none) ↔ (length bytes < 1 + get_or bytes 0 0)
unfolding read_sized
read_sized-none [] = (λ e. omega arith, λ h. refl)
read_sized-none (b ∷ bytes) = (
  λ e. omega (arith, (read_bytes-none b bytes).0 e),
  λ h. (read_bytes-none b bytes).1 (omega arith),
)

with_password-none :
    (user_name : List ℕ) (found : Option (List ℕ × List ℕ))
    → (with_password user_name found ≡ none) ↔ (found ≡ none)
with_password-none user_name none = (λ e. refl, λ e. refl)
with_password-none user_name (some (password, rest)) = (λ e. cc, λ e. cc)

-- A request with the size `size` and the bytes behind it is read outside its payload exactly when
-- these end before the byte with the password's size, or before the end of the password.
pub read_login-none :
    (size : ℕ) (bytes : List ℕ)
    → (read_login (size ∷ bytes) ≡ none) ↔ (length bytes < size + 1 + get_or bytes size 0)
unfolding read_login read_sized read_bytes after_user_name
read_login-none size bytes = go (ltb (length bytes) size) refl
  where
    last :
        (read_sized (drop size bytes) ≡ none)
        ↔ (length (drop size bytes) < 1 + get_or (drop size bytes) 0 0)
    last = read_sized-none (drop size bytes)

    name :
        (with_password (take size bytes) (read_sized (drop size bytes)) ≡ none)
        ↔ (read_sized (drop size bytes) ≡ none)
    name = with_password-none (take size bytes) (read_sized (drop size bytes))

    go :
        (b : Bool)
        → ltb (length bytes) size ≡ b
        → (after_user_name (if b then none else some (take size bytes, drop size bytes)) ≡ none)
          ↔ (length bytes < size + 1 + get_or bytes size 0)
    go true e = (λ h. ground arith, λ h. refl)
    go false e = (
      λ h. ground (arith, last.0 (name.0 h), length-drop size bytes, get_or-drop size bytes),
      λ h. name.1 (last.1 (ground (arith, length-drop size bytes, get_or-drop size bytes))),
    )

-- The response to a name of less than 250 bytes has the user's id in its first four bytes, and the
-- player's name is read from the bytes behind them.
pub read_sized-response :
    (req : DbLoginReq)
    → length req.user_name < 250
    → (get32 (response_payload (validate_login req)) 0 ≡ 123 + length req.user_name)
      × (read_sized (drop 4 (response_payload (validate_login req)))
          ≡ some ((validate_login req).user_name, []))
unfolding response_payload validate_login read_sized
read_sized-response req small = (omega arith, read_bytes_all _ _ (omega arith))

-- From the response to a name of 250 to 255 bytes, which the size byte cannot count any more with
-- its prefix, at most 5 bytes of the player's name are read.
pub response-cut :
    (req : DbLoginReq) (text rest : List ℕ)
    → 250 ≤ length req.user_name
    → length req.user_name < 256
    → read_sized (drop 4 (response_payload (validate_login req))) ≡ some (text, rest)
    → length text ≡ length req.user_name - 250
unfolding response_payload validate_login read_sized
response-cut req text rest long small e = omega (
  arith,
  read_bytes-length (length (bytes_of "Player" ++ req.user_name) % 256)
      (bytes_of "Player" ++ req.user_name) text rest e,
)
