-- ===== src/Cache/Segment.antt =====
-- Segments of the doubly linked list of src/storage/cache.c, and what `unlink` and `push_front` make
-- of them.
use baka_dns.Base.{
  ℕ, ◌≡◌, ◌≢◌, refl, sym, ap, ◌∙◌, Option, none, some, List, [], ◌∷◌, ◌++◌, ◌>>=◌, All, All-append,
  ==_ne, ==_refl,
}
use baka_dns.Message.{ResourceRecord}
use baka_dns.Cache.{Node, Heap, store, set_next, set_last, set_last_if, unlink, push_front}

-- A cached record at its address.
pub record Entry : Type 0 where
  pub address : ℕ
  pub rr : ResourceRecord
  pub expire_time : ℕ

abbrev pub head_of : List Entry → Option ℕ
head_of [] = none
head_of (e ∷ es) = some e.address

abbrev pub node_of : Option ℕ → ℕ → Entry → Node
node_of next last e = record {
  next = next;
  last = some last;
  element = some e.rr;
  expire_time = e.expire_time;
}

-- The nodes behind `p`, linked both ways, up to the end of the list.
unfoldable pub Segment : Heap → ℕ → List Entry → Type 0
Segment h p [] = Unit
Segment h p (e ∷ es) = (h e.address ≡ some (node_of (head_of es) p e)) × Segment h e.address es

-- No entry is at the address.
abbrev pub Apart : ℕ → List Entry → Type 0
Apart p es = All (λ e. p ≢ e.address) es

abbrev pub Distinct : List Entry → Type 0
Distinct [] = Unit
Distinct (e ∷ es) = Apart e.address es × Distinct es

pub store_self : (h : Heap) (p : ℕ) (n : Node) → store h p n p ≡ some n
store_self h p n = rw (==_refl p)

pub store_other : (h : Heap) (p : ℕ) (n : Node) (q : ℕ) → q ≢ p → store h p n q ≡ h q
store_other h p n q f = rw (==_ne q p f)

-- A segment depends on nothing but its own nodes.
pub Segment-frame :
    (h h' : Heap) (p : ℕ) (es : List Entry)
    → Segment h p es
    → All (λ e. h' e.address ≡ h e.address) es
    → Segment h' p es
unfolding Segment
Segment-frame h h' p [] s same = tt
Segment-frame h h' p (e ∷ es) s same = (same.0 ∙ s.0, Segment-frame h h' e.address es s.1 same.1)

pub Segment-store :
    (h : Heap) (p q : ℕ) (n : Node) (es : List Entry)
    → Segment h p es
    → Apart q es
    → Segment (store h q n) p es
unfolding Segment
Segment-store h p q n [] s f = tt
Segment-store h p q n (e ∷ es) s f =
    (store_other h q n e.address (λ t. f.0 (sym t)) ∙ s.0, Segment-store h e.address q n es s.1 f.1)

-- The first node of a segment gets another predecessor.
pub set_last_if-Segment :
    (h : Heap) (p q : ℕ) (es : List Entry)
    → Segment h p es
    → Distinct es
    → (h' : Heap) × (set_last_if h (head_of es) (some q) ≡ some h')
      × Segment h' q es
      × ((x : ℕ) → Apart x es → h' x ≡ h x)
unfolding Segment set_last_if set_last
set_last_if-Segment h p q [] s d = (h, refl, tt, λ x f. refl)
set_last_if-Segment h p q (e ∷ es) s d =
    let n = node_of (head_of es) q e in
    (
      store h e.address n,
      rw (s.0, ◌>>=◌),
      (store_self h e.address n, Segment-store h e.address e.address n es s.1 d.0),
      λ x f. store_other h e.address n x f.0,
    )

pub All-split : (P : Entry → Type 0) (xs ys : List Entry) → All P (xs ++ ys) → All P xs × All P ys
All-split P [] ys h = (tt, h)
All-split P (x ∷ xs) ys h = let (a, b) = All-split P xs ys h.1 in ((h.0, a), b)

-- What is left of distinct entries without one of them, and that one is apart from them.
pub Distinct-without :
    (pre post : List Entry) (e : Entry)
    → Distinct (pre ++ (e ∷ post))
    → Distinct (pre ++ post) × Apart e.address (pre ++ post)
Distinct-without [] post e d = (d.1, d.0)
Distinct-without (x ∷ pre) post e d =
    let (a, b) = Distinct-without pre post e d.1 in
    let (f, g) = All-split (λ y. x.address ≢ y.address) pre (e ∷ post) d.0 in
    ((All-append (λ y. x.address ≢ y.address) pre post f g.1, a), ((λ t. g.0 (sym t)), b))

pub Apart-without :
    (p : ℕ) (pre post : List Entry) (e : Entry)
    → Apart p (pre ++ (e ∷ post))
    → Apart p (pre ++ post)
Apart-without p pre post e f =
    let (a, b) = All-split (λ y. p ≢ y.address) pre (e ∷ post) f in
    All-append (λ y. p ≢ y.address) pre post a b.1

-- `unlink` of an entry behind the node `p`.
pub unlink-Segment :
    (pre post : List Entry) (e : Entry) (h : Heap) (p : ℕ) (pn : Node)
    → h p ≡ some pn
    → pn.next ≡ head_of (pre ++ (e ∷ post))
    → Segment h p (pre ++ (e ∷ post))
    → Apart p (pre ++ (e ∷ post))
    → Distinct (pre ++ (e ∷ post))
    → (h' : Heap) × (unlink h e.address ≡ some h')
      × (h' p ≡ some (record pn { next = head_of (pre ++ post) }))
      × Segment h' p (pre ++ post)
      × ((x : ℕ) → p ≢ x → Apart x (pre ++ post) → h' x ≡ h x)
unfolding Segment unlink set_next
unlink-Segment [] post e h p pn at next s f d =
    let pn' : Node = record pn { next = head_of post } in
    let h1 = store h p pn' in
    let (h', done, seg, frame) =
      set_last_if-Segment h1 e.address p post (Segment-store h e.address p pn' post s.1 f.1) d.1 in
    (
      h',
      rw (s.0, ◌>>=◌) (rw (at, ◌>>=◌) done),
      frame p f.1 ∙ store_self h p pn',
      seg,
      λ x ne apart. frame x apart ∙ store_other h p pn' x (λ t. ne (sym t)),
    )
unlink-Segment (y ∷ pre) post e h p pn at next s f d =
    let yn = node_of (head_of (pre ++ (e ∷ post))) p y in
    let (h', done, here, seg, frame) =
      unlink-Segment pre post e h y.address yn s.0 refl s.1 d.0 d.1 in
    (
      h',
      done,
      frame p (λ t. f.0 (sym t)) (Apart-without p pre post e f.1)
          ∙ at
          ∙ ap (λ (t : Option ℕ). some (record pn { next = t })) next,
      (here, seg),
      λ x ne apart. frame x (λ t. apart.0 (sym t)) apart.1,
    )

-- `push_front` of an entry whose node points to the segment behind `d`.
pub push_front-Segment :
    (es : List Entry) (e : Entry) (h : Heap) (d : ℕ) (dn : Node)
    → h d ≡ some dn
    → h e.address ≡ some (node_of (head_of es) d e)
    → Segment h d es
    → Apart d (e ∷ es)
    → Distinct (e ∷ es)
    → (h' : Heap) × (push_front h d e.address ≡ some h')
      × (h' d ≡ some (record dn { next = some e.address }))
      × Segment h' d (e ∷ es)
unfolding Segment push_front set_next
push_front-Segment es e h d dn at here s f u =
    let dn' : Node = record dn { next = some e.address } in
    let h1 = store h d dn' in
    let there : h1 e.address ≡ some (node_of (head_of es) d e) =
      store_other h d dn' e.address (λ t. f.0 (sym t)) ∙ here in
    let (h', done, seg, frame) =
      set_last_if-Segment h1 d e.address es (Segment-store h d d dn' es s f.1) u.1 in
    (
      h',
      rw (at, ◌>>=◌) (rw (there, ◌>>=◌) done),
      frame d f.1 ∙ store_self h d dn',
      (frame e.address u.0 ∙ there, seg),
    )

-- The node of an entry in the middle.
pub Segment-at :
    (pre post : List Entry) (e : Entry) (h : Heap) (p : ℕ)
    → Segment h p (pre ++ (e ∷ post))
    → (q : ℕ) × (h e.address ≡ some (node_of (head_of post) q e))
unfolding Segment
Segment-at [] post e h p s = (p, s.0)
Segment-at (x ∷ pre) post e h p s = Segment-at pre post e h x.address s.1
