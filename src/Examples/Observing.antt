-- ===== src/Examples/Observing.antt =====
-- What the programs under examples/ that observe a stream keep of it: sets, lists of messages, and
-- the frames of a log of sends.
use peashape.Prelude.{
  ℕ, ◌≡◌, refl, ap, ◌∙◌, ==_iff, if◌then◌else◌, Option, none, some, List, [], ◌∷◌, ◌++◌, map,
  contains, arith,
}
use peashape.Config.{SocketAddr, Bytes}

-- `HashSet::insert`.
unfoldable pub insert_new : ℕ → List ℕ → List ℕ
insert_new a set = if contains set a then set else set ++ a ∷ []

pub insert_new-same : (a : ℕ) (set : List ℕ) → set ≡ a ∷ [] → insert_new a set ≡ a ∷ []
unfolding insert_new
insert_new-same a set e =
    ap (λ l. if contains l a then l else l ++ a ∷ []) e ∙ ground (arith, ==_iff a a)

-- A message that was recovered, if one was, is pushed.
abbrev pub push_some : Option Bytes → List Bytes → List Bytes
push_some none messages = messages
push_some (some m) messages = messages ++ m ∷ []

-- The first of a list of results, and the others.
abbrev pub first_of {ℓ} : {A : Type ℓ} → List (Option A) → Option A
first_of [] = none
first_of (x ∷ xs) = x

abbrev pub rest_of {ℓ} : {A : Type ℓ} → List (Option A) → List (Option A)
rest_of [] = []
rest_of (x ∷ xs) = xs

-- What was sent, without the receivers.
abbrev pub frames : List (SocketAddr × Bytes) → List Bytes
frames = map (λ s. s.1)

pub map-frames {ℓ} :
    {A : Type ℓ} (f : Bytes → A) (sent : List (SocketAddr × Bytes))
    → map f (frames sent) ≡ map (λ s. f s.1) sent
map-frames f [] = refl
map-frames f (s ∷ sent) = ap (◌∷◌ (f s.1)) (map-frames f sent)
