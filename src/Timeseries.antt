-- ===== src/Timeseries.antt =====
-- internal/timeseries/influx.go: the point that a telemetry becomes in InfluxDB. The client of the
-- server is not under this repository: what it is handed is a list of points.
use vpp_lab.Prelude.{String, Bool, List, [], ◌∷◌, Option, none, some, ◌==◌, if◌then◌else◌}
use vpp_lab.Prelude.Int.{ℤ, pos, eq_ℤ}
use vpp_lab.Prelude.Dict.{Dict, insert}
use vpp_lab.Prelude.Clock.{Time, unix}
use vpp_lab.Model.{Telemetry}

-- A value of a field of a point.
pub data FieldValue (R : Type 0) : Type 0 where
  text : String → FieldValue R
  int : ℤ → FieldValue R
  float : R → FieldValue R

pub record Point (R : Type 0) : Type 0 where
  pub measurement : String
  pub tags : Dict String
  pub fields : Dict (FieldValue R)
  pub at : Time

-- The points that the server took, the last first, and whether it answers.
pub record Writer (R : Type 0) : Type 0 where
  pub points : List (Point R)
  pub reachable : Bool

module _ {R : Type 0} where
  -- The loop of AddField; a metric named like another field stands in its place.
  unfoldable pub add_fields : Dict R → Dict (FieldValue R) → Dict (FieldValue R)
  add_fields [] fields = fields
  add_fields ((k, v) ∷ metrics) fields = add_fields metrics (insert k (float v) fields)

  unfoldable pub point : Time → Telemetry R → Point R
  unfolding add_fields
  point now t = record {
    measurement = if t.type == "" then "device" else t.type;
    tags = ("site_id", t.site_id) ∷ ("device_id", t.device_id) ∷ [];
    fields = add_fields t.metrics (("state", text t.state) ∷ ("seq", int t.seq) ∷ []);
    at = if eq_ℤ t.timestamp (pos 0) then now else unix t.timestamp;
  }

  -- `none` is an error.
  unfoldable pub write_telemetry : Time → Telemetry R → Writer R → Option (Writer R)
  unfolding point
  write_telemetry now t w =
      if w.reachable then some (record w { points = point now t ∷ w.points }) else none
