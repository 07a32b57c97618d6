-- ===== src/Alerts/Log.antt =====
-- The history is the end of a log that nothing is cut from.
use gcad.Base.{
  ℕ, zero, suc, ◌+◌, ◌-◌, ◌≤◌, ◌<◌, ◌^◌, ◌≡◌, refl, sym, ap, ◌∙◌, arith, List, [], ◌∷◌, ◌++◌, map,
  length, length-append, length-drop, drop, drop-drop,
}
use gcad.Alerts.{
  AlertRecord, append, trim, max_history, recent, acknowledge_all, acknowledged_record, clear,
  set_min_level, set_sound_enabled, set_toast_enabled, set_notification_callback,
}
use gcad.Alerts.Threads.{Shared, Step, Reaches}
use gcad.Alerts.Acknowledged.{mark, acknowledge_lem}

-- What a step does to the log.
abbrev pub log_step : {k : ℕ} {s t : Shared} → Step k s t → List AlertRecord → List AlertRecord
log_step (Step.appends before rec after e) log = log ++ (rec ∷ [])
log_step (Step.acknowledges id) log = map (mark id) log
log_step Step.acknowledges_all log = map acknowledged_record log
log_step Step.clears log = []
log_step _ log = log

-- The log of an interleaving: every record appended since the last `clear`, with its acknowledgements.
abbrev pub log_of : {n : ℕ} {s : Shared} → Reaches n s → List AlertRecord
log_of Reaches.starts = []
log_of (Reaches.steps reached step) = log_step step (log_of reached)

-- The last `n` records.
abbrev pub last : ℕ → List AlertRecord → List AlertRecord
last n log = drop (length log - n) log

drop-append :
    (n : ℕ) (xs ys : List AlertRecord) → n ≤ length xs → drop n (xs ++ ys) ≡ drop n xs ++ ys
drop-append zero xs ys h = refl
drop-append (suc n) [] ys h = absurd (omega arith)
drop-append (suc n) (x ∷ xs) ys h = drop-append n xs ys (omega arith)

module _ (f : AlertRecord → AlertRecord) where
  length-map : (xs : List AlertRecord) → length (map f xs) ≡ length xs
  length-map [] = refl
  length-map (x ∷ xs) = omega (arith, length-map xs)

  drop-map : (n : ℕ) (xs : List AlertRecord) → drop n (map f xs) ≡ map f (drop n xs)
  drop-map zero xs = refl
  drop-map (suc n) [] = refl
  drop-map (suc n) (x ∷ xs) = drop-map n xs

  map-last : (n : ℕ) (log : List AlertRecord) → map f (last n log) ≡ last n (map f log)
  map-last n log =
      sym (ap (λ m. drop (m - n) (map f log)) (length-map log) ∙ drop-map (length log - n) log)

last-last : (n m : ℕ) (log : List AlertRecord) → n ≤ m → last n (last m log) ≡ last n log
last-last n m log h =
    drop-drop (length log - m) (length (last m log) - n) log
    ∙ ap (λ k. drop k log) (omega (arith, h, length-drop (length log - m) log))

trim-last :
    (log : List AlertRecord) (rec : AlertRecord)
    → trim (last max_history log ++ (rec ∷ [])) ≡ last max_history (log ++ (rec ∷ []))
unfolding trim
trim-last log rec =
    ap (last max_history) (sym (drop-append d log (rec ∷ []) (omega arith)))
    ∙ drop-drop d (length (drop d longer) - max_history) longer
    ∙ ap (λ k. drop k longer) (omega (arith, length-drop d longer, length-append log (rec ∷ [])))
  where
    d : ℕ
    d = length log - max_history

    longer : List AlertRecord
    longer = log ++ (rec ∷ [])

Step-log :
    (k n : ℕ) (s t : Shared) (step : Step k s t) (log : List AlertRecord)
    → Reaches n s
    → n + 1 < 2 ^ 64
    → s.manager.history ≡ last max_history log
    → t.manager.history ≡ last max_history (log_step step log)
unfolding append acknowledge_all clear set_min_level set_sound_enabled set_toast_enabled
    set_notification_callback
Step-log k n s t (Step.takes now ev _) log r h e = e
Step-log k n s t (Step.appends before rec after _) log r h e =
    ap (λ xs. trim (xs ++ (rec ∷ []))) e ∙ trim-last log rec
Step-log k n s t (Step.acknowledges id) log r h e =
    acknowledge_lem n s id r h ∙ ap (map (mark id)) e ∙ map-last (mark id) max_history log
Step-log k n s t Step.acknowledges_all log r h e =
    ap (map acknowledged_record) e ∙ map-last acknowledged_record max_history log
Step-log k n s t Step.clears log r h e = refl
Step-log k n s t (Step.sets_level level) log r h e = e
Step-log k n s t (Step.sets_sound on) log r h e = e
Step-log k n s t (Step.sets_toast on) log r h e = e
Step-log k n s t (Step.sets_callback callable) log r h e = e

history-log :
    (n : ℕ) (s : Shared) (r : Reaches n s)
    → n + 1 < 2 ^ 64
    → s.manager.history ≡ last max_history (log_of r)
history-log n s Reaches.starts h = refl
history-log n s (Reaches.steps {n = m} {k = k} {s = q} r step) h =
    Step-log k m q s step (log_of r) r (omega (arith, h)) (history-log m q r (omega (arith, h)))

-- Under every interleaving with fewer than 2 ^ 64 - 1 alerts, the history is the last 500 records of the
-- log of all that were appended since the last `clear`, acknowledged as the calls say; and for at most 500
-- records `recent` returns the last ones of that log.
pub recent-log :
    (n : ℕ) (s : Shared) (r : Reaches n s) (k : ℕ)
    → n + 1 < 2 ^ 64
    → k ≤ max_history
    → (s.manager.history ≡ last max_history (log_of r)) × (recent k s.manager ≡ last k (log_of r))
unfolding recent
recent-log n s r k h few =
    let shown = history-log n s r h in
    (shown, ap (last k) shown ∙ last-last k max_history (log_of r) few)
