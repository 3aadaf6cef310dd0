-- ===== src/Torrent/Add/Announced.antt =====
-- internal/protocol/bt/fetcher.go: which trackers are added to a torrent, and how often.
use gopeed_torbox.Base.{
  ◌≡◌, refl, Bool, true, false, not, ◌&&◌, ◌||◌, List, [], ◌∷◌, bytes_eq, arith, if◌then◌else◌,
}
use gopeed_torbox.Download.Resource.{Extra}
use gopeed_torbox.Torrent.Add.{Text, has_tracker, put_trackers, announce_list, extra_trackers}

-- No tracker stands twice.
unfoldable pub no_repeats : List Text → Bool
unfolding has_tracker
no_repeats [] = true
no_repeats (t ∷ ts) = not (has_tracker t ts) && no_repeats ts

bytes_eq-path : (a b : Text) → bytes_eq a b ≡ true → a ≡ b
unfolding bytes_eq
bytes_eq-path [] [] h = refl
bytes_eq-path [] (c ∷ cs) h = ground arith
bytes_eq-path (b ∷ bs) [] h = ground arith
bytes_eq-path (b ∷ bs) (c ∷ cs) h =
    let head : b ≡ c = ground (arith, h) in let tail = bytes_eq-path bs cs (ground (arith, h)) in cc

has_tracker-path :
    (t u : Text) (set : List Text)
    → bytes_eq u t ≡ true
    → has_tracker u set ≡ true
    → has_tracker t set ≡ true
has_tracker-path t u set e h = rw⁻¹ (bytes_eq-path u t e) h

put-has :
    (t u : Text) (set : List Text)
    → has_tracker t (if has_tracker u set then set else u ∷ set)
      ≡ (bytes_eq u t || has_tracker t set)
unfolding has_tracker
put-has t u set = let known = has_tracker-path t u set in ground (arith, known)

put_trackers-has :
    (t : Text) (ts set : List Text)
    → has_tracker t (put_trackers ts set) ≡ (has_tracker t ts || has_tracker t set)
unfolding put_trackers has_tracker
put_trackers-has t [] set = refl
put_trackers-has t (u ∷ us) set =
    let later = put_trackers-has t us (if has_tracker u set then set else u ∷ set) in
    let here = put-has t u set in ground (arith, later, here)

put_trackers-no_repeats :
    (ts set : List Text) → no_repeats set ≡ true → no_repeats (put_trackers ts set) ≡ true
unfolding put_trackers no_repeats
put_trackers-no_repeats [] set h = h
put_trackers-no_repeats (u ∷ us) set h =
    put_trackers-no_repeats us (if has_tracker u set then set else u ∷ set) (ground (arith, h))

-- A tracker is added to a torrent if, and only if, the torrent is not private and the request or
-- the configuration names it, and no tracker is added twice.
pub announce_list-has :
    {J : Type 0} (t : Text) (private : Bool) (extra : Extra (List Text) J) (config : List Text)
    → (has_tracker t (announce_list private extra config)
        ≡ (not private && (has_tracker t config || has_tracker t (extra_trackers extra))))
      × (no_repeats (announce_list private extra config) ≡ true)
unfolding announce_list no_repeats has_tracker
announce_list-has t true extra config = (refl, refl)
announce_list-has t false extra config =
    let ours = put_trackers (extra_trackers extra) [] in
    let all = put_trackers-has t config ours in
    let asked = put_trackers-has t (extra_trackers extra) [] in
    (
      ground (arith, all, asked),
      put_trackers-no_repeats config ours (put_trackers-no_repeats (extra_trackers extra) [] refl),
    )
