-- ===== src/Stats/Holder.antt =====
-- server/core/stats.go: the counters of one connector behind their lock. A method that locks is one
-- step on the value. The counters are int64 and stand for the numbers below 2^63.
use nats_kafka.Base.{ℕ, ◌+◌, ◌-◌, String, Bool, true, false}
use nats_kafka.Base.Int.{pos}
use nats_kafka.Base.Outcome.{Outcome, ok, ◌>>=◌}
use nats_kafka.Stats.Float.{Float64, FloatOps}
use nats_kafka.Stats.Histogram.{Histogram, new_histogram, add_value, quantile}

pub record ConnectorStats : Type 0 where
  pub name : String
  pub id : String
  pub nats_connection : String
  pub connected : Bool
  pub connects : ℕ
  pub disconnects : ℕ
  pub bytes_in : ℕ
  pub bytes_out : ℕ
  pub messages_in : ℕ
  pub messages_out : ℕ
  pub request_count : ℕ
  pub moving_average : Float64
  pub quintile50 : Float64
  pub quintile75 : Float64
  pub quintile90 : Float64
  pub quintile95 : Float64
  pub num_pending : ℕ

pub record StatsHolder : Type 0 where
  pub stats : ConnectorStats
  pub histogram : Histogram

unfoldable pub new_stats_holder : String → String → StatsHolder
unfolding new_histogram
new_stats_holder name id = record {
  histogram = new_histogram (pos 60);
  stats = record {
    name = name;
    id = id;
    nats_connection = "";
    connected = false;
    connects = 0;
    disconnects = 0;
    bytes_in = 0;
    bytes_out = 0;
    messages_in = 0;
    messages_out = 0;
    request_count = 0;
    moving_average = 0;
    quintile50 = 0;
    quintile75 = 0;
    quintile90 = 0;
    quintile95 = 0;
    num_pending = 0;
  };
}

unfoldable pub set_nats_connection : StatsHolder → String → StatsHolder
set_nats_connection h cluster = record h { stats = record h.stats { nats_connection = cluster } }

unfoldable pub add_message_in : StatsHolder → ℕ → StatsHolder
add_message_in h bytes = record h {
  stats = record h.stats {
    messages_in = h.stats.messages_in + 1;
    bytes_in = h.stats.bytes_in + bytes;
  };
}

unfoldable pub add_message_out : StatsHolder → ℕ → StatsHolder
add_message_out h bytes = record h {
  stats = record h.stats {
    messages_out = h.stats.messages_out + 1;
    bytes_out = h.stats.bytes_out + bytes;
  };
}

unfoldable pub add_disconnect : StatsHolder → StatsHolder
add_disconnect h = record h {
  stats = record h.stats { disconnects = h.stats.disconnects + 1; connected = false };
}

unfoldable pub add_connect : StatsHolder → StatsHolder
add_connect h = record h {
  stats = record h.stats { connects = h.stats.connects + 1; connected = true };
}

module _ (f : FloatOps) where
  open f use {of_ℕ, literal, add, mul, div}

  -- ((count - 1) * average + time) / count, with the count already raised
  pub next_average : ℕ → Float64 → Float64 → Float64
  next_average count average reqns = div (add (mul (of_ℕ (count - 1)) average) reqns) (of_ℕ count)

  -- `AddRequestTime`; the time is in nanoseconds, as `float64` makes it.
  pub add_request_time : StatsHolder → ℕ → Outcome StatsHolder
  unfolding next_average
  add_request_time h ns = do
    let s = h.stats
    let count = s.request_count + 1
    histogram' ← add_value f h.histogram (of_ℕ ns)
    ok (record {
      stats = record s {
        request_count = count;
        moving_average = next_average count s.moving_average (of_ℕ ns);
      };
      histogram = histogram';
    })

  pub add_request : StatsHolder → ℕ → ℕ → ℕ → Outcome StatsHolder
  unfolding next_average
  add_request h bytes_in bytes_out ns = do
    let s = h.stats
    let count = s.request_count + 1
    histogram' ← add_value f h.histogram (of_ℕ ns)
    ok (record {
      stats = record s {
        messages_in = s.messages_in + 1;
        bytes_in = s.bytes_in + bytes_in;
        messages_out = s.messages_out + 1;
        bytes_out = s.bytes_out + bytes_out;
        request_count = count;
        moving_average = next_average count s.moving_average (of_ℕ ns);
      };
      histogram = histogram';
    })

  pub add_stream_request : StatsHolder → ℕ → ℕ → ℕ → ℕ → Outcome StatsHolder
  unfolding next_average
  add_stream_request h bytes_in bytes_out ns num_pending = do
    let s = h.stats
    let count = s.request_count + 1
    histogram' ← add_value f h.histogram (of_ℕ ns)
    ok (record {
      stats = record s {
        messages_in = s.messages_in + 1;
        bytes_in = s.bytes_in + bytes_in;
        messages_out = s.messages_out + 1;
        bytes_out = s.bytes_out + bytes_out;
        request_count = count;
        moving_average = next_average count s.moving_average (of_ℕ ns);
        num_pending = num_pending;
      };
      histogram = histogram';
    })

  unfoldable pub read_stats : StatsHolder → ConnectorStats × StatsHolder
  read_stats h =
      let s = record h.stats {
        quintile50 = quantile f h.histogram (literal "0.5");
        quintile75 = quantile f h.histogram (literal "0.75");
        quintile90 = quantile f h.histogram (literal "0.9");
        quintile95 = quantile f h.histogram (literal "0.95");
      } in
      (s, record h { stats = s })
