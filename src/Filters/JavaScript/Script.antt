-- ===== src/Filters/JavaScript/Script.antt =====
-- A script as the filter sees it: a run of the interpreter that writes to the console, calls the
-- functions of the context object, and ends. The interpreter itself (github.com/dop251/goja) is
-- not modelled. A run that never ends would block its worker thread, and is left out.
use dynamic_modules_examples.Base.{Option, List}
use dynamic_modules_examples.Base.Bytes.{Bytes}

pub data JsValue : Type 0 where
  str : Bytes → JsValue
  undefined : JsValue

-- The functions that `RequestHeaders` sets on the object that it hands to the script.
pub data RequestMethod : Type 0 where
  get_request_header set_request_header : RequestMethod

-- Those of `ResponseHeaders`. A request header cannot be set there.
pub data ResponseMethod : Type 0 where
  get_request_header get_response_header set_response_header : ResponseMethod

-- A call hands over its arguments as the strings that `String()` makes of them. What `console.log`
-- writes is given as the bytes that `fmt.Fprint` makes of the arguments.
pub data Run (Method Vm : Type 0) : Type 0 where
  finished : (error : Option Bytes) → Vm → Run Method Vm
  log : Bytes → Run Method Vm → Run Method Vm
  call : Method → List Bytes → (JsValue → Run Method Vm) → Run Method Vm
