-- ===== src/Guest/Bridge/Invariant.antt =====
-- The bookkeeping of the bridge under any interleaving of its goroutines' steps.
use claude_cowork_service.Base.{
  All, Bool-cases, Bytes, Dict, List, [], arith, elem, elem-All, eqb, eqb_iff, eqb→eq, false, get,
  get-put, if◌then◌else◌, inl, inr, none, put, refl, some, sym, true, ℕ, ◌<◌, ◌^◌, ◌∙◌, ◌∷◌, ◌≡◌,
  ◌≤◌,
}
use claude_cowork_service.Decimal.{format_uint, format_uint-injective}
use claude_cowork_service.Guest.Bridge.{Channel, GuestBridge, drop_id, open_chan}

abbrev pub Distinct : List Bytes → Type 0
Distinct [] = Unit {0}
Distinct (id ∷ ids) = (elem id ids ≡ false) × Distinct ids

abbrev pub AllOpen : Dict Channel → List Bytes → Type 0
AllOpen chans = All (λ id. get id chans ≡ some open_chan)

-- Every channel's id is that of a request numbered so far.
abbrev pub Numbered : ℕ → Dict Channel → Type 0
Numbered next = All (λ e. (n : ℕ) × (e.0 ≡ format_uint n) × (n ≤ next))

pub record Inv (g : GuestBridge) : Type 0 where
  pub waiting : AllOpen g.channels g.pending
  pub distinct : Distinct g.pending
  pub numbered : Numbered g.next_id g.channels
  pub in_range : g.next_id < 2 ^ 64

pub elem-drop_id :
    (j id : Bytes) (ids : List Bytes)
    → elem j (drop_id id ids) ≡ (if eqb id j then false else elem j ids)
unfolding elem drop_id
elem-drop_id j id [] = ground arith
elem-drop_id j id (k ∷ ids) =
    ground (arith, eqb_iff k id, eqb_iff k j, eqb_iff id j, elem-drop_id j id ids)

pub drop_id-Distinct : (id : Bytes) (ids : List Bytes) → Distinct ids → Distinct (drop_id id ids)
unfolding drop_id
drop_id-Distinct id [] d = tt
drop_id-Distinct id (k ∷ ids) d =
    ground (arith, drop_id-Distinct id ids d.1, elem-drop_id k id ids, eqb_iff k id)

-- Writing another channel leaves the waiting ones open.
pub put-AllOpen :
    (id : Bytes) (c : Channel) (chans : Dict Channel) (ids : List Bytes)
    → AllOpen chans ids
    → AllOpen (put id c chans) (drop_id id ids)
unfolding drop_id
put-AllOpen id c chans [] w = tt
put-AllOpen id c chans (k ∷ ids) w =
    ground (arith, put-AllOpen id c chans ids w.1, get-put id k c chans, eqb_iff k id, eqb_iff id k)

pub put-Numbered :
    (n : ℕ) (c : Channel) (next : ℕ) (chans : Dict Channel)
    → n ≤ next
    → Numbered next chans
    → Numbered next (put (format_uint n) c chans)
unfolding put
put-Numbered n c next [] l w = ((n, refl, l), tt)
put-Numbered n c next ((k, v) ∷ chans) l w = elim (Bool-cases (eqb k (format_uint n))) [
  | inl hit ↦ rw hit ((n, refl, l), w.1)
  | inr miss ↦ rw miss (w.0, put-Numbered n c next chans l w.1)
]

pub Numbered-mono : (m n : ℕ) (chans : Dict Channel) → m ≤ n → Numbered m chans → Numbered n chans
Numbered-mono m n [] l w = tt
Numbered-mono m n ((k, v) ∷ chans) l ((i, e, b), w) =
    ((i, e, omega arith), Numbered-mono m n chans l w)

-- An id past the counter has no channel yet.
pub get-Numbered :
    (n next : ℕ) (chans : Dict Channel)
    → next < n
    → n < 2 ^ 64
    → Numbered next chans
    → get (format_uint n) chans ≡ none
unfolding get
get-Numbered n next [] l m w = refl
get-Numbered n next ((k, v) ∷ chans) l m ((i, e, b), w) =
    elim (Bool-cases (eqb k (format_uint n))) [
      | inl hit ↦
          let same =
            format_uint-injective i n (omega arith) m (sym e ∙ eqb→eq k (format_uint n) hit) in
          absurd (omega arith)
      | inr miss ↦ rw miss (get-Numbered n next chans l m w)
    ]

-- Writing a channel that exists keeps the ids.
pub put-Numbered_old :
    (id : Bytes) (old c : Channel) (next : ℕ) (chans : Dict Channel)
    → get id chans ≡ some old
    → Numbered next chans
    → Numbered next (put id c chans)
unfolding get put
put-Numbered_old id old c next [] e w = absurd (cc)
put-Numbered_old id old c next ((k, v) ∷ chans) e ((n, named, l), w) =
    elim (Bool-cases (eqb k id)) [
      | inl hit ↦ rw hit ((n, sym (eqb→eq k id hit) ∙ named, l), w)
      | inr miss ↦
          rw miss ((n, named, l), put-Numbered_old id old c next chans (ground (arith, miss)) w)
    ]

pub drop_id_absent : (id : Bytes) (ids : List Bytes) → elem id ids ≡ false → drop_id id ids ≡ ids
unfolding drop_id elem
drop_id_absent id [] h = refl
drop_id_absent id (k ∷ ids) h = ground (arith, drop_id_absent id ids)

pub elem-AllOpen :
    (id : Bytes) (chans : Dict Channel) (ids : List Bytes)
    → AllOpen chans ids
    → elem id ids ≡ true
    → get id chans ≡ some open_chan
elem-AllOpen id chans ids w h = elem-All (λ j. get j chans ≡ some open_chan) id ids w h
