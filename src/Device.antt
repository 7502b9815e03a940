-- ===== src/Device.antt =====
-- The data of the stack: the types of Include/usb_types.h and Include/usbd_types.h, and the calls
-- of the peripheral driver of docs/usbd_pd_if.h.
use usbdevice.Base.{
  ℕ, Bool, true, false, List, ◌∷◌, ◌*◌, ◌+◌, ◌||◌, leb, ◌==◌, if◌then◌else◌, update,
}

-- `USBD_ReturnType`
pub data ReturnType : Type 0 where
  e_ok e_error e_busy e_invalid : ReturnType

-- `USB_DirectionType`, seen from the host.
pub data Direction : Type 0 where
  direction_out direction_in : Direction

abbrev pub is_in : Direction → Bool
is_in direction_out = false
is_in direction_in = true

-- `USB_SpeedType`
pub data Speed : Type 0 where
  speed_low speed_full speed_high : Speed

-- `USB_EndPointType`
pub data EndPointType : Type 0 where
  type_control type_isochronous type_bulk type_interrupt : EndPointType

abbrev pub is_high : Speed → Bool
is_high speed_high = true
is_high _ = false

abbrev pub is_full : Speed → Bool
is_full speed_full = true
is_full _ = false

abbrev pub is_isochronous : EndPointType → Bool
is_isochronous type_isochronous = true
is_isochronous _ = false

-- `USB_EndPointStateType`
pub data EndPointState : Type 0 where
  state_closed state_idle state_stall state_setup state_data state_status : EndPointState

abbrev pub is_idle : EndPointState → Bool
is_idle state_idle = true
is_idle _ = false

abbrev pub is_stall : EndPointState → Bool
is_stall state_stall = true
is_stall _ = false

abbrev pub is_data : EndPointState → Bool
is_data state_data = true
is_data _ = false

abbrev pub is_setup : EndPointState → Bool
is_setup state_setup = true
is_setup _ = false

-- `USB_SetupRequestType`: the bit fields of bmRequestType, then bRequest, wValue, wIndex, wLength.
pub record SetupRequest : Type 0 where
  pub recipient : ℕ
  pub type : ℕ
  pub direction : Direction
  pub request : ℕ
  pub value : ℕ
  pub index : ℕ
  pub length : ℕ

-- `RequestType.b`, the byte that the three bit fields share.
abbrev pub request_type_b : SetupRequest → ℕ
request_type_b s = s.recipient + s.type * 32 + (if is_in s.direction then 128 else 0)

abbrev pub type_standard : ℕ
type_standard = 0

abbrev pub type_class : ℕ
type_class = 1

-- `USB_StdRequestType` and `USB_ReqRecipientType`, as the numbers that the host sends.
abbrev pub recipient_device : ℕ
recipient_device = 0

abbrev pub recipient_interface : ℕ
recipient_interface = 1

abbrev pub recipient_endpoint : ℕ
recipient_endpoint = 2

abbrev pub req_get_status : ℕ
req_get_status = 0

abbrev pub req_clear_feature : ℕ
req_clear_feature = 1

abbrev pub req_set_feature : ℕ
req_set_feature = 3

abbrev pub req_set_address : ℕ
req_set_address = 5

abbrev pub req_get_descriptor : ℕ
req_get_descriptor = 6

abbrev pub req_get_configuration : ℕ
req_get_configuration = 8

abbrev pub req_set_configuration : ℕ
req_set_configuration = 9

abbrev pub req_get_interface : ℕ
req_get_interface = 10

abbrev pub req_set_interface : ℕ
req_set_interface = 11

-- `USB_FEATURE_EP_HALT`, `USB_FEATURE_REMOTE_WAKEUP`
abbrev pub feature_ep_halt : ℕ
feature_ep_halt = 0

abbrev pub feature_remote_wakeup : ℕ
feature_remote_wakeup = 1

-- `USBD_EpHandleType`: of `Transfer` the address of the data and the length.
pub record Endpoint : Type 0 where
  pub transfer_data : ℕ
  pub transfer_length : ℕ
  pub max_packet_size : ℕ
  pub type : EndPointType
  pub state : EndPointState
  pub if_num : ℕ

-- What the `void*` of a transfer points to: nothing, the shared buffer `CtrlData` of the device,
-- a constant object with these bytes, a field of the interface handle with this reference, or the
-- memory of the application at this address.
pub data Field : Type 0 where
  alt_selector_field dev_status_field dev_state_field : Field
  cbw_field csw_field buffer_field line_coding_field : Field

pub data Buffer : Type 0 where
  null ctrl_data_buffer : Buffer
  rom : List ℕ → Buffer
  itf_field : ℕ → Field → Buffer
  memory : ℕ → Buffer

-- The calls of the peripheral driver (`USBD_PD_...`), with their arguments.
pub data PdCall : Type 0 where
  pd_init pd_deinit pd_start pd_stop : PdCall
  pd_set_remote_wakeup pd_clear_remote_wakeup pd_ctrl_ep_open : PdCall
  pd_set_address : ℕ → PdCall
  pd_ep_open : ℕ → EndPointType → ℕ → PdCall
  pd_ep_close pd_ep_flush pd_ep_set_stall pd_ep_clear_stall : ℕ → PdCall
  pd_ep_send pd_ep_receive : ℕ → Buffer → ℕ → PdCall

-- The build options of usbd_config.h and of the peripheral driver that the code tests, and what the
-- driver, which is not in the repository, does to the handle: `transfer c l` is the new
-- `Transfer.Length` of the endpoint that the call `c` is about, whose length was `l`, and
-- `transfer_at c a` its new `Transfer.Data`, which was `a`.
pub record Platform : Type 0 where
  pub max_if_count : ℕ
  pub max_ep_count : ℕ
  pub ep0_buffer_size : ℕ
  pub serial_bcd_size : ℕ
  pub hs_support : Bool
  pub set_address_immediate : Bool
  pub transfer : PdCall → ℕ → ℕ
  pub transfer_at : PdCall → ℕ → ℕ

-- `USBD_DescriptionType`; a string is the list of its bytes, with no terminating zero.
pub record Description : Type 0 where
  pub config_name : List ℕ
  pub max_current_ma : ℕ
  pub config_b : ℕ
  pub vendor_name : List ℕ
  pub vendor_id : ℕ
  pub product_name : List ℕ
  pub product_id : ℕ
  pub product_bcd : ℕ
  pub serial_number : List ℕ

-- `USBD_HandleType`. An array is a function of its index; `ifs` holds references into the store of
-- interface handles. Two fields are not in the source: `calls`, the calls of the peripheral driver
-- so far, the last one first, and `out_of_range`, set by an access past the end of `IF` or `EP`.
pub record Device : Type 0 where
  pub desc : Description
  pub setup : SetupRequest
  pub speed : Speed
  pub self_powered : Bool
  pub remote_wakeup : Bool
  pub config_selector : ℕ
  pub if_count : ℕ
  pub ifs : ℕ → ℕ
  pub ep_in : ℕ → Endpoint
  pub ep_out : ℕ → Endpoint
  pub ctrl_data : List ℕ
  pub calls : List PdCall
  pub out_of_range : Bool

-- `USBD_EpHandleType*`: a place of one of the two arrays of endpoints.
pub data EpRef : Type 0 where
  in_ep out_ep : ℕ → EpRef

-- The comparison of two such pointers.
abbrev pub same_ep : EpRef → EpRef → Bool
same_ep (in_ep m) (in_ep n) = m == n
same_ep (out_ep m) (out_ep n) = m == n
same_ep _ _ = false

abbrev pub get_ep : EpRef → Device → Endpoint
get_ep (in_ep n) d = d.ep_in n
get_ep (out_ep n) d = d.ep_out n

abbrev pub put_ep : EpRef → Endpoint → Device → Device
put_ep (in_ep n) e d = record d { ep_in = update d.ep_in n e }
put_ep (out_ep n) e d = record d { ep_out = update d.ep_out n e }

abbrev pub set_ep_state : EpRef → EndPointState → Device → Device
set_ep_state r s d = put_ep r (record (get_ep r d) { state = s }) d

abbrev pub set_transfer_length : EpRef → ℕ → Device → Device
set_transfer_length r l d = put_ep r (record (get_ep r d) { transfer_length = l }) d

abbrev pub set_transfer_data : EpRef → ℕ → Device → Device
set_transfer_data r a d = put_ep r (record (get_ep r d) { transfer_data = a }) d

-- The accesses `EP.IN[n]`, `EP.OUT[n]` and `IF[n]`.
abbrev pub touch_ep : Platform → ℕ → Device → Device
touch_ep p n d = record d { out_of_range = d.out_of_range || leb p.max_ep_count n }

abbrev pub touch_if : Platform → ℕ → Device → Device
touch_if p n d = record d { out_of_range = d.out_of_range || leb p.max_if_count n }

-- A call of the driver, and one that is about an endpoint.
abbrev pub call : PdCall → Device → Device
call c d = record d { calls = c ∷ d.calls }

abbrev pub ep_call : Platform → EpRef → PdCall → Device → Device
ep_call p r c d =
    set_transfer_data r (p.transfer_at c (get_ep r d).transfer_data)
      (set_transfer_length r (p.transfer c (get_ep r d).transfer_length) (call c d))
