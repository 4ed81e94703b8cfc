-- ===== src/Plugin/Allocate/Share.antt =====
-- The containers of one Allocate request share no device.
use alibabacloud_erdma_contr.Prelude.{
  ◌≡◌, ◌≢◌, subst, ap, false, List, [], ◌∷◌, ◌++◌, Text, All, All-map, arith,
}
use alibabacloud_erdma_contr.Exec.{ok}
use alibabacloud_erdma_contr.Exec.Pure.{ok_value, through, via}
use alibabacloud_erdma_contr.Types.{ERdmaDeviceInfo}
use alibabacloud_erdma_contr.Plugin.Allocate.Laws.{
  IsTaken, Fresh, not_before, grant_container-Fresh,
}
use alibabacloud_erdma_contr.Plugin.Allocate.{
  Plugin, ContainerResponse, Grant, text_in, grant_container, respond, allocate_from, allocate,
}

-- No device of the first list has the name of one of the second.
abbrev pub NoneShared : List ERdmaDeviceInfo → List ERdmaDeviceInfo → Type 0
NoneShared ds es = All (λ d. All (λ e. d.name ≢ e.name) es) ds

-- The containers of a request, each with what it was granted and with its response, if it has one.
pub data Served (p : Plugin) : List (List Text) → List ContainerResponse → List Grant → Type 0 where
  nobody : Served p [] [] []
  next :
      (ids : List Text) (requests : List (List Text)) (here rest : List ContainerResponse)
      (occ : List Text) (g : Grant) (gs : List Grant)
      → grant_container p ids occ ≡ ok g
      → respond p g ≡ ok here
      → Served p requests rest gs
      → Served p (ids ∷ requests) (here ++ rest) (g ∷ gs)

-- No two of the containers share a device.
abbrev pub Apart : List Grant → Type 0
Apart [] = Unit
Apart (g ∷ gs) = All (λ (h : Grant). NoneShared g.granted h.granted) gs × Apart gs

abbrev FreeOf : List Text → Grant → Type 0
FreeOf occ g = All (λ (d : ERdmaDeviceInfo). text_in occ d.name ≡ false) g.granted

taken_apart :
    (occ : List Text) (g h : Grant)
    → All (IsTaken occ g.occupied) g.granted
    → FreeOf g.occupied h
    → NoneShared g.granted h.granted
taken_apart occ g h taken free =
    All-map (IsTaken occ g.occupied) _ g.granted
      (λ d held.
        All-map (λ (e : ERdmaDeviceInfo). text_in g.occupied e.name ≡ false) _ h.granted
          (λ e f same. ground (arith, held.1, f, ap (text_in g.occupied) same)) free)
      taken

free_before : (occ : List Text) (g h : Grant) → Fresh occ g → FreeOf g.occupied h → FreeOf occ h
free_before occ g h fresh free =
    All-map (λ (e : ERdmaDeviceInfo). text_in g.occupied e.name ≡ false) _ h.granted
      (λ e f. not_before occ g e.name fresh f) free

allocate_from-Served :
    (p : Plugin) (requests : List (List Text)) (occ : List Text) (rs : List ContainerResponse)
    → allocate_from p requests occ ≡ ok rs
    → (gs : List Grant) × Served p requests rs gs × Apart gs × All (FreeOf occ) gs
unfolding allocate_from
allocate_from-Served p [] occ [] h = ([], nobody, tt, tt)
allocate_from-Served p [] occ (r ∷ rs) h = cc
allocate_from-Served p (ids ∷ requests) occ rs h = elim (through (grant_container p ids occ) _ h) [
  | via g e1 h1 ↦ elim (through (respond p g) _ h1) [
    | via here e2 h2 ↦ elim (through (allocate_from p requests g.occupied) _ h2) [
      | via rest e3 h3 ↦
          let (gs, served, apart, free) = allocate_from-Served p requests g.occupied rest e3 in
          let fresh = grant_container-Fresh p ids occ g e1 in
          (
            g ∷ gs,
            subst (λ x. Served p (ids ∷ requests) x (g ∷ gs)) (ok_value h3)
                (next ids requests here rest occ g gs e1 e2 served),
            (All-map (FreeOf g.occupied) _ gs (λ x. taken_apart occ g x fresh.taken) free, apart),
            (
              All-map (IsTaken occ g.occupied) _ g.granted (λ d t. t.0) fresh.taken,
              All-map (FreeOf g.occupied) _ gs (λ x. free_before occ g x fresh) free,
            ),
          )
    ]
  ]
]

-- Where Allocate answers a request, each of its containers has been granted devices for its ids, the answer
-- is the responses to these grants in the order of the containers, and no two containers share a
-- device.
pub containers_share_nothing :
    (p : Plugin) (requests : List (List Text)) (rs : List ContainerResponse)
    → allocate p requests ≡ ok rs
    → (gs : List Grant) × Served p requests rs gs × Apart gs
unfolding allocate
containers_share_nothing p requests rs h =
    let (gs, served, apart, free) = allocate_from-Served p requests [] rs h in (gs, served, apart)
