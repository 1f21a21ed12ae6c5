-- ===== src/Anomalies/Trends.antt =====
-- The trends of `get_anomaly_trends`.
use vixa_system_config_be.Base.{
  String, some, Bool, true, List, [], ◌∷◌, ◌≡◌, refl, ◌∙◌, arith, ◌&&◌, ◌==◌, leb, str_eq, eq_iff,
  map, filter, count, unique_by, order_asc, In, In-sort_by, filter-In,
}
use vixa_system_config_be.Base.Groups.{count-order_asc, count-filter, count-map, In-map, one_group}
use vixa_system_config_be.Runtime.{Runtime, Time}
use vixa_system_config_be.Models.Anomaly.{AnomalyEvent, anomaly_severity_value}
use vixa_system_config_be.Tx.{World, ok, request, open_session, gets, continue, pure, ◌>>=◌}
use vixa_system_config_be.Anomalies.Reads.{
  in_same_bucket, trend_bucket, trend_buckets, AnomalyTrendBucket, AnomalyTrends,
  get_anomaly_trends,
}

abbrev pub in_range : Time → Time → AnomalyEvent → Bool
in_range from_timestamp to_timestamp e =
    leb from_timestamp e.occurred_at && leb e.occurred_at to_timestamp

-- the bucket is the one for the event's time, truncated, and its severity
abbrev pub is_bucket_of : (Time → Time) → AnomalyTrendBucket → AnomalyEvent → Bool
is_bucket_of trunc b e =
    b.bucket == trunc e.occurred_at && str_eq b.severity (anomaly_severity_value e.severity)

module _ (trunc : Time → Time) where
  same_bucket_refl : (a : AnomalyEvent) → in_same_bucket trunc a a ≡ true
  unfolding in_same_bucket
  same_bucket_refl a =
      let v = anomaly_severity_value a.severity in let s = eq_iff v v in ground arith

  same_bucket_joins :
      (a b y : AnomalyEvent)
      → in_same_bucket trunc a y ≡ true
      → in_same_bucket trunc b y ≡ true
      → in_same_bucket trunc a b ≡ true
  unfolding in_same_bucket
  same_bucket_joins a b y h k =
      let va = anomaly_severity_value a.severity in
      let vb = anomaly_severity_value b.severity in
      let vy = anomaly_severity_value y.severity in
      let p = eq_iff va vy in let q = eq_iff vb vy in let r = eq_iff va vb in grind arith

  same_bucket_carries :
      (a b y : AnomalyEvent)
      → in_same_bucket trunc a b ≡ true
      → in_same_bucket trunc b y ≡ true
      → in_same_bucket trunc a y ≡ true
  unfolding in_same_bucket
  same_bucket_carries a b y h k =
      let va = anomaly_severity_value a.severity in
      let vb = anomaly_severity_value b.severity in
      let vy = anomaly_severity_value y.severity in
      let p = eq_iff va vb in let q = eq_iff vb vy in let r = eq_iff va vy in grind arith

  -- the buckets of some events
  abbrev buckets_of : List AnomalyEvent → List AnomalyTrendBucket
  buckets_of events =
      order_asc (λ (b : AnomalyTrendBucket). b.bucket)
        (map (trend_bucket trunc events) (unique_by (in_same_bucket trunc) events))

  bucket_size :
      (events : List AnomalyEvent) (b : AnomalyTrendBucket)
      → In b (buckets_of events)
      → b.count ≡ count (is_bucket_of trunc b) events
  unfolding trend_bucket in_same_bucket order_asc
  bucket_size events b i =
      let groups = unique_by (in_same_bucket trunc) events in
      let rows = map (trend_bucket trunc events) groups in
      let j = In-sort_by (λ (x y : AnomalyTrendBucket). leb x.bucket y.bucket) rows b i in
      let (e, _, made) = In-map (trend_bucket trunc events) groups b j in rw made refl

  own_bucket :
      (events : List AnomalyEvent) (e : AnomalyEvent)
      → In e events
      → count (λ (b : AnomalyTrendBucket). is_bucket_of trunc b e) (buckets_of events) ≡ 1
  unfolding trend_bucket in_same_bucket
  own_bucket events e i =
      count-order_asc (λ (b : AnomalyTrendBucket). is_bucket_of trunc b e)
        (λ (b : AnomalyTrendBucket). b.bucket)
        (map (trend_bucket trunc events) (unique_by (in_same_bucket trunc) events))
      ∙ count-map (λ (b : AnomalyTrendBucket). is_bucket_of trunc b e) (trend_bucket trunc events)
          (unique_by (in_same_bucket trunc) events)
      ∙ one_group (in_same_bucket trunc) same_bucket_refl same_bucket_joins same_bucket_carries
          events e i

abbrev trends_of : Time → Time → String → List AnomalyTrendBucket → AnomalyTrends
trends_of from_timestamp to_timestamp interval buckets = record {
  interval = interval;
  from_timestamp = from_timestamp;
  to_timestamp = to_timestamp;
  buckets = buckets;
}

module _ ⦃rt : Runtime⦄ where
  trends_answer :
      (from_timestamp to_timestamp : Time) (interval : String) (w : World) (trunc : Time → Time)
      → rt.date_trunc interval ≡ some trunc
      → (request (get_anomaly_trends from_timestamp to_timestamp interval) w).0
        ≡ ok (
            trends_of from_timestamp to_timestamp interval (
              buckets_of trunc
                (filter (in_range from_timestamp to_timestamp) w.database.anomaly_events)))
  unfolding request get_anomaly_trends trend_buckets gets order_asc unique_by ◌>>=◌
  trends_answer from_timestamp to_timestamp interval w trunc known =
      go (filter (in_range from_timestamp to_timestamp) w.database.anomaly_events)
    where
      go :
          (events : List AnomalyEvent)
          → (continue
              (trend_buckets interval events (open_session w)).0
              (λ buckets. pure (trends_of from_timestamp to_timestamp interval buckets))
              (trend_buckets interval events (open_session w)).1).0
            ≡ ok (trends_of from_timestamp to_timestamp interval (buckets_of trunc events))
      go [] = refl
      go (e ∷ es) = rw known refl

  -- For an interval that `date_trunc` knows, the request for the trends between two times is answered.
  -- Each bucket counts exactly the stored anomalies between these times that have its severity and
  -- whose time is truncated to its time, and each such anomaly has exactly one bucket of its own
  -- truncated time and severity.
  pub trends_group_events :
      (from_timestamp to_timestamp : Time) (interval : String) (w : World) (trunc : Time → Time)
      → rt.date_trunc interval ≡ some trunc
      → let within = in_range from_timestamp to_timestamp in
        let events = w.database.anomaly_events in
        (out : AnomalyTrends) × ((request
            (get_anomaly_trends from_timestamp to_timestamp interval)
            w).0
          ≡ ok out)
        × ((b : AnomalyTrendBucket)
            → In b out.buckets
            → b.count ≡ count (λ e. within e && is_bucket_of trunc b e) events)
        × ((e : AnomalyEvent)
            → In e events
            → within e ≡ true
            → count (λ (b : AnomalyTrendBucket). is_bucket_of trunc b e) out.buckets ≡ 1)
  trends_group_events from_timestamp to_timestamp interval w trunc known =
      let within = in_range from_timestamp to_timestamp in
      let events = w.database.anomaly_events in
      (
        _,
        trends_answer from_timestamp to_timestamp interval w trunc known,
        λ b i. bucket_size trunc (filter within events) b i ∙ count-filter _ within events,
        λ e i h. own_bucket trunc (filter within events) e (filter-In within events e i h),
      )
