-- ===== src/Echo/Conversation.antt =====
-- A fiber of examples/fiber_echo_client.cpp and the fiber of examples/fiber_echo_server.cpp that has the
-- other end of its connection.
use fiberio.Base.{
  ℕ, zero, suc, ◌≡◌, refl, sym, true, [], ◌∷◌, ◌++◌, some, Text, length, length-append, arith, ap,
  ◌∙◌,
}
use mathlib.Core.List.{append_assoc, append-nil}
use fiberio.Errors.{Result, ok, err}
use fiberio.Duplex.{Duplex}
use fiberio.Echo.{serve, rounds}
use fiberio.Echo.Server.{Echoed, serve-Echoed}
use fiberio.Echo.Client.{letters, Answered, rounds-Answered}

length-letters : (n : ℕ) → length (letters n) ≡ n
length-letters zero = refl
length-letters (suc n) = ap suc (length-letters n)

-- The first part of a text of its length is all of it.
all_of : (a b t : Text) → length a ≡ length t → a ++ b ≡ t → (a ≡ t) × (b ≡ [])
all_of a [] t h e = (sym (append-nil a) ∙ e, refl)
all_of a (x ∷ b) t h e = absurd (omega (arith, h, ap length e, length-append a (x ∷ b)))

empty-append : (a b : Text) → a ++ b ≡ [] → (a ≡ []) × (b ≡ [])
empty-append [] b e = (refl, e)
empty-append (x ∷ a) b e = absurd (cc e)

-- What came to the client, what of it the client has not read, what the server has sent, and what that
-- has not read, once `n` letters have gone round.
abbrev pub Exchanged : ℕ → Text → Text → Text → Text → Type 0
Exchanged n answers left sent coming =
    (answers ≡ letters n) × (left ≡ []) × (sent ≡ letters n) × (coming ≡ [])

exchanged :
    (n : ℕ) (answer left on_way lost coming to_server came sent : Text)
    → length answer ≡ n
    → came ≡ answer ++ left
    → sent ≡ came ++ on_way
    → sent ++ (lost ++ (coming ++ to_server)) ≡ letters n
    → Exchanged n came left sent coming
exchanged n answer left on_way lost coming to_server came sent count got passed all =
    let (q, rest) =
      all_of answer (left ++ (on_way ++ (lost ++ (coming ++ to_server)))) (letters n)
        (count ∙ sym (length-letters n)) whole in
    let (no_left, rest1) = empty-append left _ rest in
    let (no_way, rest2) = empty-append on_way _ rest1 in
    let (_, rest3) = empty-append lost _ rest2 in
    let (no_coming, _) = empty-append coming _ rest3 in
    let came_all : came ≡ letters n =
      got ∙ ap (λ (t : Text). answer ++ t) no_left ∙ append-nil answer ∙ q in
    (
      came_all,
      no_left,
      passed ∙ ap (λ (t : Text). came ++ t) no_way ∙ append-nil came ∙ came_all,
      no_coming,
    )
  where
    whole : answer ++ (left ++ (on_way ++ (lost ++ (coming ++ to_server)))) ≡ letters n
    whole =
        sym (append_assoc answer left (on_way ++ (lost ++ (coming ++ to_server))))
        ∙ sym (append_assoc (answer ++ left) on_way (lost ++ (coming ++ to_server)))
        ∙ ap (λ (t : Text). t ++ (lost ++ (coming ++ to_server)))
            (ap (λ (t : Text). t ++ on_way) (sym got) ∙ sym passed)
        ∙ all

module _ {S T : Type 0} (d : Duplex S) (e : Duplex T) (close : S → Result (Unit {0}) × S)
    (close_keeps : (s : S)
      → (d.sent (close s).1 ≡ d.sent s) × (d.reader.coming (close s).1 ≡ d.reader.coming s)) where
  -- The two ends, once each fiber has ended as it does.
  ended-Exchanged :
      (n : ℕ) (s s' : S) (t t' : T) (r : Result (Unit {0})) (on_way to_server : Text)
      → d.sent s ≡ []
      → e.sent t ≡ []
      → Answered d.reader.coming d.sent n s (some (ok tt, s'))
      → Echoed e.reader.coming e.sent (e.sent t) (e.reader.coming t) (some (r, t'))
      → e.sent t' ≡ d.reader.coming s ++ on_way
      → d.sent s' ≡ e.reader.coming t ++ to_server
      → Exchanged n (d.reader.coming s) (d.reader.coming s') (e.sent t') (e.reader.coming t')
  ended-Exchanged n s s' t t' (ok _) on_way to_server c f a v passed brought = absurd v
  ended-Exchanged n s s' t t' (err x) on_way to_server c f (asked, (answer, count, got))
        (lost, _, echoed) passed brought =
      exchanged n answer (d.reader.coming s') on_way lost (e.reader.coming t') to_server
        (d.reader.coming s) (e.sent t') count got passed
        (ap (λ (u : Text). e.sent t' ++ u) (sym (append_assoc lost (e.reader.coming t') to_server))
          ∙ sym (append_assoc (e.sent t') (lost ++ e.reader.coming t') to_server)
          ∙ ap (λ (u : Text). u ++ to_server) (echoed ∙ ap (λ (u : Text). u ++ e.reader.coming t) f)
          ∙ sym brought
          ∙ asked
          ∙ ap (λ (u : Text). u ++ letters n) c)

  -- A client and the server at the two ends of one new connection, whatever their sockets are: once
  -- a client of any number of rounds has returned without an exception and the fiber of the server
  -- has ended, the client has been sent back exactly its letters, it has read them all, the server
  -- has sent them and no more, and nothing that came to the server is left. What comes to each end
  -- is taken to be the first part of what the other has sent, and the `close` of the client to send
  -- and to read nothing.
  pub rounds-serve :
      (n : ℕ) (s s' : S) (t t' : T) (r : Result (Unit {0})) (on_way to_server : Text)
      → e.reader.is_open t ≡ true
      → d.sent s ≡ []
      → e.sent t ≡ []
      → rounds d close n s ≡ some (ok tt, s')
      → serve e t ≡ some (r, t')
      → e.sent t' ≡ d.reader.coming s ++ on_way
      → d.sent s' ≡ e.reader.coming t ++ to_server
      → Exchanged n (d.reader.coming s) (d.reader.coming s') (e.sent t') (e.reader.coming t')
  rounds-serve n s s' t t' r on_way to_server o c f runs serves =
      ended-Exchanged n s s' t t' r on_way to_server c f
        (rw runs at (rounds-Answered d close close_keeps n s)) (rw serves at (serve-Echoed e t o))
