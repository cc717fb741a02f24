-- ===== src/Config/Names.antt =====
-- The names of the enumerators in texts: the `parse…` functions of src/common/Config.cpp, whose `none` is
-- an exception, and the functions of src/common/RuntimeState.cpp that write them.
use inference_server.Shared.{
  ◌≡◌, ◌≢◌, refl, ◌||◌, String, Option, none, some, str_eq, if◌then◌else◌,
}
use inference_server.Config.{
  YoloVersion, v5, v8, v11, v26, unknown, DeviceType, cpu, cuda, ascend, mps, SamplingMode,
  frame_count, time_based, EdgeDropPolicy, block, drop_oldest, drop_newest,
}

unfoldable pub parse_yolo_version : String → Option YoloVersion
parse_yolo_version s =
    if str_eq s "yolov5" || str_eq s "v5"
    then some v5
    else if str_eq s "yolov8" || str_eq s "v8"
    then some v8
    else if str_eq s "yolo11" || str_eq s "v11"
    then some v11
    else if str_eq s "yolo26" || str_eq s "v26"
    then some v26
    else none

unfoldable pub parse_device_type : String → Option DeviceType
parse_device_type s =
    if str_eq s "tensorrt" || (str_eq s "cuda" || str_eq s "trt")
    then some cuda
    else if str_eq s "ascend" || str_eq s "acl"
    then some ascend
    else if str_eq s "cpu"
    then some cpu
    else if str_eq s "mps" || str_eq s "metal"
    then some mps
    else none

unfoldable pub parse_sampling_mode : String → Option SamplingMode
parse_sampling_mode s =
    if str_eq s "frame_count" || str_eq s ""
    then some frame_count
    else if str_eq s "time_based"
    then some time_based
    else none

unfoldable pub parse_edge_drop_policy : String → Option EdgeDropPolicy
parse_edge_drop_policy s =
    if str_eq s "block"
    then some block
    else if str_eq s "drop_oldest"
    then some drop_oldest
    else if str_eq s "drop_newest"
    then some drop_newest
    else none

unfoldable pub device_type_to_str : DeviceType → String
device_type_to_str cuda = "tensorrt"
device_type_to_str ascend = "ascend"
device_type_to_str cpu = "cpu"
device_type_to_str mps = "mps"

-- The names of versions in the saved changes.
unfoldable pub yolo_version_to_str : YoloVersion → String
yolo_version_to_str v5 = "yolov5"
yolo_version_to_str v8 = "yolov8"
yolo_version_to_str v11 = "yolo11"
yolo_version_to_str v26 = "yolo26"
yolo_version_to_str unknown = "yolov8"

unfoldable pub sampling_mode_to_str : SamplingMode → String
sampling_mode_to_str time_based = "time_based"
sampling_mode_to_str frame_count = "frame_count"

unfoldable pub edge_drop_policy_to_json : EdgeDropPolicy → String
edge_drop_policy_to_json drop_oldest = "drop_oldest"
edge_drop_policy_to_json drop_newest = "drop_newest"
edge_drop_policy_to_json block = "block"

pub parse_device_type-to_str : (d : DeviceType) → parse_device_type (device_type_to_str d) ≡ some d
unfolding parse_device_type device_type_to_str
parse_device_type-to_str cuda = refl
parse_device_type-to_str ascend = refl
parse_device_type-to_str cpu = refl
parse_device_type-to_str mps = refl

pub parse_yolo_version-to_str :
    (v : YoloVersion) → v ≢ unknown → parse_yolo_version (yolo_version_to_str v) ≡ some v
unfolding parse_yolo_version yolo_version_to_str
parse_yolo_version-to_str v5 h = refl
parse_yolo_version-to_str v8 h = refl
parse_yolo_version-to_str v11 h = refl
parse_yolo_version-to_str v26 h = refl
parse_yolo_version-to_str unknown h = absurd (h refl)

pub parse_sampling_mode-to_str :
    (m : SamplingMode) → parse_sampling_mode (sampling_mode_to_str m) ≡ some m
unfolding parse_sampling_mode sampling_mode_to_str
parse_sampling_mode-to_str time_based = refl
parse_sampling_mode-to_str frame_count = refl

pub parse_edge_drop_policy-to_json :
    (p : EdgeDropPolicy) → parse_edge_drop_policy (edge_drop_policy_to_json p) ≡ some p
unfolding parse_edge_drop_policy edge_drop_policy_to_json
parse_edge_drop_policy-to_json drop_oldest = refl
parse_edge_drop_policy-to_json drop_newest = refl
parse_edge_drop_policy-to_json block = refl
